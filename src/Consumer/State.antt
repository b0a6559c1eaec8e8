-- ===== src/Consumer/State.antt =====
-- The comparison of the mirror with an authenticated root: `verify_state` of
-- crates/consumer/src/anchors.rs, and the bounds of crates/consumer/src/apply.rs that it and the
-- views share.
--
-- `storage_root_at` is the trait's own version of store.rs. The mirror in memory keeps the same
-- root in its incremental trie, which is the tree of Feed.Trie.
pub mod Grounded
use strk20_indexer.Prelude.{
  ℕ, Bool, true, false, not, Option, none, some, List, [], ◌∷◌, String, leb, ltb, ◌==◌, str_eq,
  if◌then◌else◌,
}
use strk20_indexer.Feed.Felt.{Felt, Crypto, felt_from_hex}
use strk20_indexer.Feed.Mpt.{storage_root}
use strk20_indexer.Feed.Checkpoint.{TrustedCheckpoint}
use strk20_indexer.Feed.Codec.Parse.{and_then}
use strk20_indexer.Consumer.Reply.{
  Failure, bail, feed, Reply, done, failed, from_feed, requiring, with_value,
}
use strk20_indexer.Consumer.Number.{parse_u64}
use strk20_indexer.Map.{meta_get, meta_insert}
use strk20_indexer.Consumer.Mem.{Inner, number_or_zero}
use strk20_indexer.Consumer.Mem.View.{full_slot_set_as_of}

-- the recorded basis, if there is one, allows the block
unfoldable pub not_below : Option ℕ → ℕ → Bool
not_below none block = true
not_below (some basis) block = not (ltb block basis)

unfoldable pub check_bound_above_basis : Inner → ℕ → Reply (Unit {0})
unfolding not_below
check_bound_above_basis g block =
    requiring (not_below (and_then (meta_get "snapshot_basis" g.meta) parse_u64) block)
      "BOUND_BELOW_SNAPSHOT" (done tt)

-- the function `history_floor`
unfoldable pub history_floor_of : Inner → ℕ
history_floor_of g = number_or_zero (meta_get "history_floor" g.meta)

unfoldable pub storage_root_at : Crypto → Inner → ℕ → Felt
storage_root_at c g block = storage_root c (full_slot_set_as_of block g)

is_chain : Option String → String → Bool
is_chain none chain_id = false
is_chain (some s) chain_id = str_eq s chain_id

-- the checks of `verify_state`, which only read
unfoldable pub state_checks : Crypto → TrustedCheckpoint → Felt → Inner → Reply (Unit {0})
unfolding check_bound_above_basis is_chain
state_checks c checkpoint expected_root g =
    with_value (check_bound_above_basis g checkpoint.block_number) λ _.
      requiring (leb checkpoint.block_number (number_or_zero (meta_get "head_number" g.meta)))
        "CHECKPOINT_AHEAD"
        (requiring (is_chain (meta_get "chain_id" g.meta) checkpoint.chain_id)
          "CHAIN_MISMATCH: checkpoint network"
          (with_value
            (elim (meta_get "pool" g.meta) [
              | none ↦ failed (bail "missing pool")
              | some s ↦ from_feed (felt_from_hex c s)
            ])
            λ pool. requiring (pool == checkpoint.pool) "CHAIN_MISMATCH: checkpoint pool" (
              requiring (storage_root_at c g checkpoint.block_number == expected_root)
                "CHECKPOINT_STATE_MISMATCH" (done tt))))

unfoldable pub set_meta : String → String → Inner → Inner
set_meta key value g = record g { meta = meta_insert key value g.meta }

-- `to_text` is `serde_json::to_string` of the checkpoint
unfoldable pub verify_state :
    (to_text : TrustedCheckpoint → String)
    → Crypto
    → TrustedCheckpoint
    → Felt
    → Inner
    → Reply (Unit {0}) × Inner
verify_state to_text c checkpoint expected_root g =
    let marked = set_meta "verification_failed" "1" g in
    elim (state_checks c checkpoint expected_root marked) [
      | failed e ↦ (failed e, marked)
      | done _ ↦ (
        done tt,
        set_meta "verification_failed" "0"
            (set_meta "verified_checkpoint" (to_text checkpoint) marked),
      )
    ]
