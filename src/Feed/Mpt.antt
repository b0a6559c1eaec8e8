-- ===== src/Feed/Mpt.antt =====
-- crates/feed/src/mpt.rs: the storage trie, its root over a slot set, and the walk of a proof.
pub mod Order
pub mod Bits
pub mod Edges
pub mod Nodes
pub mod Root
pub mod Binds
pub mod Sorted
pub mod Spec
use strk20_indexer.Prelude.{
  ℕ, zero, suc, ◌+◌, ◌-◌, ◌^◌, Bool, true, false, not, ◌&&◌, ◌||◌, Option, none, some, List, [],
  ◌∷◌, map, length, get_or, take, drop, keep, partition_point, ltb, leb, ◌==◌, bool_eq,
  if◌then◌else◌,
}
use strk20_indexer.Feed.Felt.{Felt, Crypto, bit_at}

abbrev pub tree_height : ℕ
tree_height = 251

-- bit of the key at `depth`, counted from the top of its 251 bits
unfoldable pub key_bit : Felt → ℕ → Bool
key_bit f depth = bit_at f (tree_height - 1 - depth)

-- `n` bits of the key, from `depth` on
unfoldable pub key_bits_from : Felt → ℕ → ℕ → List Bool
key_bits_from f depth zero = []
key_bits_from f depth (suc n) = key_bit f depth ∷ key_bits_from f (suc depth) n

unfoldable pub key_bits : Felt → List Bool
key_bits f = key_bits_from f 0 tree_height

-- `(bits..256).all(|i| bit i is clear)`, `n` bits from `i` on
unfoldable pub all_clear : Felt → ℕ → ℕ → Bool
all_clear f i zero = true
all_clear f i (suc n) = not (bit_at f i) && all_clear f (suc i) n

unfoldable pub fits_in_bits : Felt → ℕ → Bool
fits_in_bits f bits = if leb 256 bits then true else all_clear f bits (256 - bits)

unfoldable pub is_trie_key : Felt → Bool
is_trie_key f = fits_in_bits f tree_height

-- most significant bit first; the OR of distinct bits is their sum
unfoldable pub bits_to_felt : List Bool → Felt
bits_to_felt [] = 0
bits_to_felt (b ∷ bs) = (if b then 2 ^ length bs else 0) + bits_to_felt bs

pub record SubNode : Type 0 where
  pub path : List Bool
  pub bottom : Felt

abbrev pub Entry : Type 0
Entry = List Bool × Felt

-- `Vec<bool>` compares lexicographically
unfoldable pub bits_lt : List Bool → List Bool → Bool
bits_lt [] [] = false
bits_lt [] (y ∷ ys) = true
bits_lt (x ∷ xs) [] = false
bits_lt (x ∷ xs) (y ∷ ys) = let rest = bits_lt xs ys in if bool_eq x y then rest else y

unfoldable pub bits_eq : List Bool → List Bool → Bool
bits_eq [] [] = true
bits_eq [] (y ∷ ys) = false
bits_eq (x ∷ xs) [] = false
bits_eq (x ∷ xs) (y ∷ ys) = bool_eq x y && bits_eq xs ys

-- `sort_by`: stable
unfoldable pub insert_sorted : Entry → List Entry → List Entry
insert_sorted e [] = e ∷ []
insert_sorted e (f ∷ r) =
    let rest = insert_sorted e r in if bits_lt f.0 e.0 then f ∷ rest else e ∷ f ∷ r

unfoldable pub sort_bits : List Entry → List Entry
unfolding insert_sorted
sort_bits [] = []
sort_bits (e ∷ r) = insert_sorted e (sort_bits r)

-- `dedup_by`: the first of a run stays
unfoldable pub dedup_from : Entry → List Entry → List Entry
dedup_from e [] = e ∷ []
dedup_from e (f ∷ r) =
    let same = dedup_from e r in
    let other = dedup_from f r in if bits_eq e.0 f.0 then same else e ∷ other

unfoldable pub dedup_bits : List Entry → List Entry
dedup_bits [] = []
dedup_bits (e ∷ r) = dedup_from e r

unfoldable pub bit_entries : List (Felt × Felt) → List Entry
bit_entries entries =
    dedup_bits (sort_bits (map (λ e. (key_bits e.0, e.1)) (keep (λ e. not (e.1 == 0)) entries)))

unfoldable pub entries_with_prefix : List Entry → List Bool → List Entry
entries_with_prefix sorted prefix =
    let d = length prefix in
    let lo = partition_point (λ (e : Entry). bits_lt (take d e.0) prefix) sorted in
    let hi = partition_point (λ (e : Entry). not (bits_lt prefix (take d e.0))) sorted in
    drop lo (take hi sorted)

module _ (c : Crypto) where
  unfoldable pub binary_hash : Felt → Felt → Felt
  binary_hash left right = c.pedersen_hash left right

  unfoldable pub edge_hash : Felt → Felt → ℕ → Felt
  edge_hash child path len = c.add (c.pedersen_hash child path) len

  unfoldable pub resolve : SubNode → Felt
  resolve n = elim n.path [
    | [] ↦ n.bottom
    | _ ∷ _ ↦ c.add (c.pedersen_hash n.bottom (bits_to_felt n.path)) (length n.path)
  ]

  -- the `match (left, right)` of `subtree`
  unfoldable pub join : Option SubNode → Option SubNode → Option SubNode
  join (some l) (some r) =
      some (record { path = []; bottom = c.pedersen_hash (resolve l) (resolve r) })
  join (some l) none = some (record l { path = false ∷ l.path })
  join none (some r) = some (record r { path = true ∷ r.path })
  join none none = none

  -- The fuel is the number of levels left. Two keys that agree on all bits panic in the source;
  -- here they give `none`.
  unfoldable pub subtree : ℕ → List Entry → ℕ → Option SubNode
  subtree fuel [] depth = none
  subtree fuel (e ∷ []) depth = some (record { path = drop depth e.0; bottom = e.1 })
  subtree zero (e ∷ f ∷ r) depth = none
  subtree (suc fuel) (e ∷ f ∷ r) depth =
      let es = e ∷ f ∷ r in
      let split = partition_point (λ (x : Entry). not (get_or x.0 depth false)) es in
      join (subtree fuel (take split es) (suc depth)) (subtree fuel (drop split es) (suc depth))

  unfoldable pub hash_of : Option SubNode → Felt
  hash_of none = 0
  hash_of (some n) = resolve n

  unfoldable pub subtree_hash_at : List Entry → List Bool → Felt
  subtree_hash_at sorted prefix =
      hash_of
        (subtree (tree_height - length prefix) (entries_with_prefix sorted prefix) (length prefix))

  unfoldable pub storage_root : List (Felt × Felt) → Felt
  storage_root entries = subtree_hash_at (bit_entries entries) []
