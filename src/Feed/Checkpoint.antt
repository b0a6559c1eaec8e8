-- ===== src/Feed/Checkpoint.antt =====
-- crates/feed/src/checkpoint.rs: a contract proof from an untrusted endpoint against a trusted
-- block header. Error messages keep the code that they start with.
pub mod Bound
use strk20_indexer.Prelude.{
  ℕ, ◌+◌, ◌*◌, ◌≡◌, Bool, true, false, not, ◌||◌, Option, none, some, List, [], ◌∷◌, String, length,
  ltb, leb, ◌==◌, str_eq, if◌then◌else◌,
}
use strk20_indexer.Feed.Error.{FeedError, malformed, Result, ok, err, ◌>>=◌, ◌>>◌, ensure}
use strk20_indexer.Feed.Felt.{Felt, Crypto, felt_from_hex}
use strk20_indexer.Feed.Host.{Bytes, Json}
use strk20_indexer.Feed.Mpt.{is_trie_key}
use strk20_indexer.Feed.Proof.{ProofNode, ProofOutcome, member, non_member, verify_storage_proof}
use strk20_indexer.Feed.Codec.Parse.{ok_or, and_then}

abbrev pub max_proof_bytes : ℕ
max_proof_bytes = 256 * 1024

abbrev pub max_proof_nodes : ℕ
max_proof_nodes = 512

-- `b"STARKNET_STATE_V0"`
abbrev pub state_commitment_tag_bytes : Bytes
state_commitment_tag_bytes =
    83 ∷ 84 ∷ 65 ∷ 82 ∷ 75 ∷ 78 ∷ 69 ∷ 84 ∷ 95 ∷ 83 ∷ 84 ∷ 65 ∷ 84 ∷ 69 ∷ 95 ∷ 86 ∷ 48 ∷ []

pub record TrustedCheckpoint : Type 0 where
  pub chain_id : String
  pub pool : Felt
  pub block_number : ℕ
  pub block_hash : Felt
  pub state_root : Felt

-- `Felt::from_bytes_be` of an array that starts with zeros
unfoldable pub from_bytes_be : Felt → Bytes → Felt
from_bytes_be acc [] = acc
from_bytes_be acc (b ∷ r) = from_bytes_be (acc * 256 + b) r

unfoldable pub state_commitment_tag : Felt
unfolding from_bytes_be
state_commitment_tag = from_bytes_be 0 state_commitment_tag_bytes

pub record ContractLeaf : Type 0 where
  pub class_hash : String
  pub nonce : String
  pub storage_root : String
  pub contract_address : Option String
  pub address : Option String

pub record ContractsProof : Type 0 where
  pub nodes : List ProofNode
  pub contract_leaves_data : List ContractLeaf

pub record GlobalRoots : Type 0 where
  pub block_hash : String
  pub classes_tree_root : String
  pub contracts_tree_root : String

pub record ProofResult : Type 0 where
  pub contracts_proof : ContractsProof
  pub global_roots : GlobalRoots

abbrev pub proof_malformed : FeedError
proof_malformed = malformed "CHECKPOINT_PROOF_MALFORMED"

-- the `?` on a `Result` in front of a computation that is walked on fuel
abbrev pub lift : {A B : Type 0} → Result A → (A → Option (Result B)) → Option (Result B)
lift (err e) k = some (err e)
lift (ok a) k = k a

-- `verify_storage_proof(..).map_err(..)?`
abbrev pub lift_walk :
    {B : Type 0} → Option (Result ProofOutcome) → (ProofOutcome → Result B) → Option (Result B)
lift_walk none k = none
lift_walk (some (err e)) k = some (err (malformed "CHECKPOINT_PROOF_INVALID"))
lift_walk (some (ok o)) k = some (k o)

-- the slice pattern `[one]`
unfoldable pub only_leaf : List ContractLeaf → Result ContractLeaf
only_leaf (one ∷ []) = ok one
only_leaf [] = err proof_malformed
only_leaf (a ∷ b ∷ r) = err proof_malformed

unfoldable pub check_trusted : TrustedCheckpoint → Result (Unit {0})
check_trusted cp = do
  ensure (not (str_eq cp.chain_id "")) (malformed "CHECKPOINT_INVALID: empty chain_id")
  ensure (not ((cp.pool == 0) || not (is_trie_key cp.pool)))
      (malformed "CHECKPOINT_INVALID: pool is not a contract address")
  ensure (not ((cp.block_hash == 0) || (cp.state_root == 0)))
      (malformed "CHECKPOINT_INVALID: zero block_hash or state_root")

-- of steps 1 to 3, what the walk and step 4 use
pub record Claimed : Type 0 where
  pub contracts_tree_root : Felt
  pub class_hash : Felt
  pub nonce : Felt
  pub storage_root : Felt

module _ (c : Crypto) where
  unfoldable pub state_commitment : Felt → Felt → Felt
  state_commitment contracts classes =
      c.poseidon_hash_many (state_commitment_tag ∷ contracts ∷ classes ∷ [])

  unfoldable pub contract_leaf_hash : Felt → Felt → Felt → Felt
  contract_leaf_hash class_hash storage_root nonce =
      c.pedersen_hash (c.pedersen_hash (c.pedersen_hash class_hash storage_root) nonce) 0

  -- `felt(hex, what)`
  unfoldable pub proof_felt : String → Result Felt
  proof_felt s = elim (felt_from_hex c s) [ ok f ↦ ok f | err _ ↦ err proof_malformed ]

  -- one turn of the loop over the two optional addresses
  unfoldable pub check_address : Felt → Option String → Result (Unit {0})
  unfolding proof_felt
  check_address pool none = ok tt
  check_address pool (some named) = do
    addr ← proof_felt named
    ensure (addr == pool) (malformed "CHECKPOINT_ADDRESS_MISMATCH")

  -- the match on the outcome, and step 4
  unfoldable pub check_leaf : Felt → Felt → Felt → ProofOutcome → Result Felt
  unfolding contract_leaf_hash
  check_leaf class_hash storage_root nonce non_member = err (malformed "CHECKPOINT_NOT_DEPLOYED")
  check_leaf class_hash storage_root nonce (member leaf_hash) = do
    ensure (leaf_hash == contract_leaf_hash class_hash storage_root nonce)
        (malformed "CHECKPOINT_LEAF_MISMATCH")
    ok storage_root

  unfoldable pub check_proof : TrustedCheckpoint → ProofResult → Result Claimed
  unfolding only_leaf proof_felt state_commitment check_address
  check_proof cp proof = do
    leaf ← only_leaf proof.contracts_proof.contract_leaves_data
    block_hash ← proof_felt proof.global_roots.block_hash
    ensure (block_hash == cp.block_hash) (malformed "CHECKPOINT_BLOCK_HASH_MISMATCH")
    contracts ← proof_felt proof.global_roots.contracts_tree_root
    classes ← proof_felt proof.global_roots.classes_tree_root
    ensure (state_commitment contracts classes == cp.state_root)
        (malformed "CHECKPOINT_STATE_ROOT_MISMATCH")
    check_address cp.pool leaf.contract_address
    check_address cp.pool leaf.address
    class_hash ← proof_felt leaf.class_hash
    nonce ← proof_felt leaf.nonce
    storage_root ← proof_felt leaf.storage_root
    ensure (not (class_hash == 0)) (malformed "CHECKPOINT_NOT_DEPLOYED")
    ok (record {
      contracts_tree_root = contracts;
      class_hash = class_hash;
      nonce = nonce;
      storage_root = storage_root;
    })

-- `from_value` is serde's derived `Deserialize` of `ProofResult`
module _ {Value : Type 0} (c : Crypto) (j : Json Value)
    (from_value : Value → Option ProofResult) where
  unfoldable pub unwrap_envelope : Value → Result Value
  unwrap_envelope v = do
    ensure (j.is_object v) proof_malformed
    elim (j.get v "error") [
      | none ↦ ok tt
      | some e ↦ ensure (j.is_null e) (malformed "CHECKPOINT_RPC_ERROR")
    ]
    elim (j.get v "result") [ none ↦ ok v | some r ↦ ok (if j.is_null r then v else r) ]

  unfoldable pub node_count : Value → ℕ
  node_count result =
      elim (and_then (and_then (j.get result "contracts_proof") (λ p. j.get p "nodes"))
        j.as_array) [ none ↦ 0 | some xs ↦ length xs ]

  -- the bounds, the parser and the envelope
  unfoldable pub read_proof : Bytes → Result ProofResult
  unfolding unwrap_envelope node_count
  read_proof proof_json = do
    ensure (leb (length proof_json) max_proof_bytes) (malformed "CHECKPOINT_PROOF_TOO_LARGE")
    raw ← ok_or (j.from_str proof_json) proof_malformed
    result ← unwrap_envelope raw
    ensure (leb (node_count result) max_proof_nodes) (malformed "CHECKPOINT_PROOF_TOO_LARGE")
    ok_or (from_value result) proof_malformed

  unfoldable pub verify_checkpoint : TrustedCheckpoint → Bytes → Option (Result Felt)
  unfolding check_trusted read_proof check_proof check_leaf
  verify_checkpoint cp proof_json = lift (check_trusted cp) λ _.
      lift (read_proof proof_json) λ proof. lift (check_proof c cp proof) λ s.
        lift_walk (verify_storage_proof c s.contracts_tree_root proof.contracts_proof.nodes cp.pool)
          (check_leaf c s.class_hash s.storage_root s.nonce)
