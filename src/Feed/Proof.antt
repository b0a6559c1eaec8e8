-- ===== src/Feed/Proof.antt =====
-- The walk of a storage proof: `verify_storage_proof` of crates/feed/src/mpt.rs.
pub mod Total
pub mod Visits
pub mod Paths
pub mod Sound
use strk20_indexer.Prelude.{
  ℕ, zero, suc, ◌+◌, ◌-◌, Bool, true, false, not, Option, none, some, List, [], ◌∷◌, String, ltb,
  leb, ◌==◌, bool_eq, if◌then◌else◌,
}
use strk20_indexer.Feed.Error.{FeedError, malformed, Result, ok, err, ◌>>=◌, ◌>>◌, ensure}
use strk20_indexer.Feed.Felt.{Felt, Crypto, bit_at, felt_from_hex}
use strk20_indexer.Feed.Mpt.{
  tree_height, key_bit, fits_in_bits, is_trie_key, binary_hash, edge_hash,
}

pub data ProofNodeBody : Type 0 where
  binary : (left right : String) → ProofNodeBody
  edge : (path : String) (length : ℕ) (child : String) → ProofNodeBody

pub record ProofNode : Type 0 where
  pub node_hash : String
  pub node : ProofNodeBody

pub data ProofOutcome : Type 0 where
  member : Felt → ProofOutcome
  non_member : ProofOutcome

-- `by_hash`, which the code only looks up
abbrev pub Nodes : Type 0
Nodes = List (Felt × ProofNodeBody)

unfoldable pub get_node : Nodes → Felt → Option ProofNodeBody
get_node [] h = none
get_node ((k, n) ∷ r) h = if k == h then some n else get_node r h

-- what one round of the loop does: return, or go on with `cur` and `depth`
pub data Visit : Type 0 where
  done : ProofOutcome → Visit
  next : (cur : Felt) (depth : ℕ) → Visit

-- `return Err`, `return Ok`, or the next round
abbrev pub settle :
    (Felt → ℕ → Option (Result ProofOutcome)) → Result Visit → Option (Result ProofOutcome)
settle again (err e) = some (err e)
settle again (ok (done o)) = some (ok o)
settle again (ok (next cur depth)) = again cur depth

-- the comparison of the path's bits with the key's, `n` bits from bit `i` on
unfoldable pub diverges : Felt → ℕ → Felt → ℕ → ℕ → ℕ → Bool
diverges path len key depth i zero = false
diverges path len key depth i (suc n) =
    let rest = diverges path len key depth (suc i) n in
    if bool_eq (bit_at path (len - 1 - i)) (key_bit key (depth + i)) then rest else true

-- every round goes down one level at least
abbrev pub walk_fuel : ℕ
walk_fuel = tree_height + 1

module _ (c : Crypto) where
  unfoldable pub index_nodes : List ProofNode → Nodes → Result Nodes
  index_nodes [] by_hash = ok by_hash
  index_nodes (n ∷ r) by_hash = do
    h ← felt_from_hex c n.node_hash
    elim (get_node by_hash h) [
      | some _ ↦ err (malformed "proof ambiguous: node is listed twice")
      | none ↦ index_nodes r ((h, n.node) ∷ by_hash)
    ]

  unfoldable pub visit : Felt → Felt → ℕ → ProofNodeBody → Result Visit
  visit key cur depth (binary left right) = do
    l ← felt_from_hex c left
    r ← felt_from_hex c right
    ensure (binary_hash c l r == cur) (malformed "binary node hash mismatch")
    ok (next (if key_bit key depth then r else l) (depth + 1))
  visit key cur depth (edge path len child) = do
    path_felt ← felt_from_hex c path
    child_felt ← felt_from_hex c child
    ensure (not (len == 0)) (malformed "zero-length edge")
    ensure (leb len (tree_height - depth)) (malformed "edge overruns tree height")
    ensure (fits_in_bits path_felt len) (malformed "edge path has bits above its length")
    ensure (edge_hash c child_felt path_felt len == cur) (malformed "edge node hash mismatch")
    ok (
        if diverges path_felt len key depth 0 len
        then done non_member
        else next child_felt (depth + len))

  -- one round below the tree's height
  unfoldable pub round : Nodes → Felt → Felt → ℕ → Result Visit
  round by_hash key cur depth =
      if cur == 0 then ok (done non_member) else elim (get_node by_hash cur) [
        | none ↦ err (malformed "proof incomplete: node not present")
        | some body ↦ visit key cur depth body
      ]

  -- the `while depth < TREE_HEIGHT` loop; `none` is for want of fuel only
  unfoldable pub walk : ℕ → Nodes → Felt → Felt → ℕ → Option (Result ProofOutcome)
  walk zero by_hash key cur depth = none
  walk (suc fuel) by_hash key cur depth = elim (ltb depth tree_height) [
    | false ↦ some (ok (member cur))
    | true ↦ settle (walk fuel by_hash key) (round by_hash key cur depth)
  ]

  unfoldable pub verify_storage_proof : Felt → List ProofNode → Felt → Option (Result ProofOutcome)
  verify_storage_proof root nodes key =
      if not (is_trie_key key)
      then some (err (malformed "trie key is not below 2^251 and would alias another key"))
      else elim (index_nodes nodes []) [
        | err e ↦ some (err e)
        | ok by_hash ↦ walk walk_fuel by_hash key root 0
      ]
