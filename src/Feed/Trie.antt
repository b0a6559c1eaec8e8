-- ===== src/Feed/Trie.antt =====
-- crates/feed/src/trie.rs: the Patricia tree that is kept between two checks of a state root.
--
-- A key of 32 bytes is its integer, like a field element. Subtraction and shifts of a depth stay in
-- range in the source, where a branch lies at or below the depth that it is entered with.
pub mod Holds
pub mod Commit
pub mod Branches
pub mod Write
pub mod Digits
pub mod Parts
pub mod Build
pub mod Slots
pub mod Loops
pub mod Collected
pub mod Refines
pub mod Total
use strk20_indexer.Prelude.{
  ℕ, zero, suc, ◌+◌, ◌-◌, ◌^◌, Bool, true, false, not, Option, none, some, List, [], ◌∷◌, take,
  drop, partition_point, ltb, ◌==◌, bool_eq, if◌then◌else◌,
}
use strk20_indexer.Feed.Error.{Result, ok, err, ensure, malformed, ◌>>=◌, ◌>>◌}
use strk20_indexer.Feed.Felt.{Felt, Crypto, bit_at}
use strk20_indexer.Feed.Mpt.{binary_hash, edge_hash, is_trie_key}
use strk20_indexer.Map.{get, insert, last}

abbrev pub Key : Type 0
Key = ℕ

pub data Node : Type 0 where
  leaf : (key : Key) (value : Felt) → Node
  branch : (key : Key) (depth : ℕ) (hash : Felt) (left right : Node) → Node

unfoldable pub bit : Key → ℕ → Bool
bit key depth = bit_at key (250 - depth)

-- `count` bits of the key from `from` on; the OR of distinct bits is their sum
unfoldable pub path : Key → ℕ → ℕ → Felt
path key from zero = 0
path key from (suc count) = (if bit key from then 2 ^ count else 0) + path key (suc from) count

-- `(from..from + count).find(|d| bit(a, d) != bit(b, d))`
unfoldable pub first_difference : Key → Key → ℕ → ℕ → Option ℕ
first_difference a b from zero = none
first_difference a b from (suc count) =
    let rest = first_difference a b (suc from) count in
    if bool_eq (bit a from) (bit b from) then rest else some from

abbrev pub key_of : Node → Key
key_of (leaf key value) = key
key_of (branch key depth hash left right) = key

abbrev pub depth_of : Node → ℕ
depth_of (leaf key value) = 251
depth_of (branch key depth hash left right) = depth

abbrev pub own_hash : Node → Felt
own_hash (leaf key value) = value
own_hash (branch key depth hash left right) = hash

pub record CachedTrie : Type 0 where
  pub root : Option Node
  pub values : List (Key × Felt)

abbrev pub no_trie : CachedTrie
no_trie = record { root = none; values = [] }

-- `next`: the slots that are not zero, by key
unfoldable pub collect_slots : List (Felt × Felt) → List (Key × Felt) → Result (List (Key × Felt))
collect_slots [] next = ok next
collect_slots (e ∷ r) next =
    ensure (is_trie_key e.0) (malformed "invalid trie key") >> elim (e.1 == 0) [
      | true ↦ collect_slots r next
      | false ↦ elim (get ltb e.0 next) [
        | some _ ↦ err (malformed "duplicate trie key")
        | none ↦ collect_slots r (insert ltb e.0 e.1 next)
      ]
    ]

module _ (c : Crypto) where
  unfoldable pub hash_at : Node → ℕ → Felt
  hash_at n start =
      let depth = depth_of n in
      if start == depth
      then own_hash n
      else edge_hash c (own_hash n) (path (key_of n) start (depth - start)) (depth - start)

  unfoldable pub branch_at : ℕ → Node → Node → Node
  branch_at depth left right =
      branch (key_of left) depth
        (binary_hash c (hash_at left (suc depth)) (hash_at right (suc depth))) left right

  -- The fuel is the number of levels left. Where the source panics, on no entry or on two entries
  -- with one key, there is no node.
  unfoldable pub build : ℕ → List (Key × Felt) → ℕ → Option Node
  build fuel [] start = none
  build fuel (e ∷ []) start = some (leaf e.0 e.1)
  build zero (e ∷ f ∷ r) start = none
  build (suc fuel) (e ∷ f ∷ r) start =
      let entries = e ∷ f ∷ r in
      elim (last entries) [
        | none ↦ none
        | some z ↦ elim (first_difference e.0 z.0 start (251 - start)) [
          | none ↦ none
          | some depth ↦
              let split = partition_point (λ (x : Key × Felt). not (bit x.0 depth)) entries in
              elim (build fuel (take split entries) (suc depth)) [
                | none ↦ none
                | some left ↦ elim (build fuel (drop split entries) (suc depth)) [
                  | none ↦ none
                  | some right ↦ some (branch_at depth left right)
                ]
              ]
        ]
      ]

  -- a new leaf beside a node, which parts from it at `split`
  unfoldable pub part : Node → Key → Felt → ℕ → Node
  part n key value split =
      let new = leaf key value in
      if bit key split then branch_at split n new else branch_at split new n

  -- A write of zero deletes; an empty tree is none.
  unfoldable pub update : Node → Key → Felt → ℕ → Option Node
  update (leaf k v) key value start = elim (first_difference k key start (251 - start)) [
    | some split ↦ if value == 0 then some (leaf k v) else some (part (leaf k v) key value split)
    | none ↦ if value == 0 then none else some (leaf key value)
  ]
  update (branch k depth h left right) key value start =
      elim (first_difference k key start (depth - start)) [
        | some split ↦
            let self = branch k depth h left right in
            if value == 0 then some self else some (part self key value split)
        | none ↦ elim (bit key depth) [
          | true ↦ elim (update right key value (suc depth)) [
            | some right' ↦ some (branch_at depth left right')
            | none ↦ some left
          ]
          | false ↦ elim (update left key value (suc depth)) [
            | some left' ↦ some (branch_at depth left' right)
            | none ↦ some right
          ]
        ]
      ]

  unfoldable pub trie_root : CachedTrie → Felt
  trie_root t = elim t.root [ none ↦ 0 | some n ↦ hash_at n 0 ]

  unfoldable pub set_slot : Option Node → Key → Felt → Option Node
  set_slot none key value = some (leaf key value)
  set_slot (some n) key value = update n key value 0

  -- the slots whose value is not the cached one
  unfoldable pub write_changed : List (Key × Felt) → List (Key × Felt) → Option Node → Option Node
  write_changed values [] root = root
  write_changed values (e ∷ r) root = elim (get ltb e.0 values) [
    | none ↦ write_changed values r (set_slot root e.0 e.1)
    | some old ↦ elim (old == e.1) [
      | true ↦ write_changed values r root
      | false ↦ write_changed values r (set_slot root e.0 e.1)
    ]
  ]

  unfoldable pub clear_slot : Option Node → Key → Option Node
  clear_slot none key = none
  clear_slot (some n) key = update n key 0 0

  -- the cached slots that are gone
  unfoldable pub drop_missing : List (Key × Felt) → List (Key × Felt) → Option Node → Option Node
  drop_missing next [] root = root
  drop_missing next (e ∷ r) root = elim (get ltb e.0 next) [
    | some _ ↦ drop_missing next r root
    | none ↦ drop_missing next r (clear_slot root e.0)
  ]

  -- the tree of a set of slots; without a node the source has panicked
  unfoldable pub build_root : List (Key × Felt) → Option (Option Node)
  build_root [] = some none
  build_root (e ∷ r) = elim (build 251 (e ∷ r) 0) [ none ↦ none | some n ↦ some (some n) ]

  unfoldable pub renew : CachedTrie → List (Key × Felt) → Option (Option Node)
  renew t next = elim t.root [
    | none ↦ build_root next
    | some n ↦ some (drop_missing next t.values (write_changed t.values next (some n)))
  ]

  abbrev pub renewed : List (Key × Felt) → Option Node → CachedTrie
  renewed next root = record { root = root; values = next }

  abbrev pub answered :
      List (Key × Felt) → Option (Option Node) → Option (Result (CachedTrie × Felt))
  answered next none = none
  answered next (some root) = some (ok (renewed next root, trie_root (renewed next root)))

  abbrev pub update_with :
      CachedTrie → Result (List (Key × Felt)) → Option (Result (CachedTrie × Felt))
  update_with t (err e) = some (err e)
  update_with t (ok next) = answered next (renew t next)

  -- The new tree and its root. There is no answer where the source panics.
  unfoldable pub update_trie : CachedTrie → List (Felt × Felt) → Option (Result (CachedTrie × Felt))
  update_trie t entries = update_with t (collect_slots entries [])
