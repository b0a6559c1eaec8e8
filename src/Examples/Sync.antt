-- ===== src/Examples/Sync.antt =====
-- A sync that goes on with the mirror of the pool of `Trusted`, and a registry with a note that is gone.
use strk20_indexer.Prelude.{◌≡◌, refl, true, not, some, [], ◌∷◌, String, keep, length}
use strk20_indexer.Feed.Felt.{felt_from_hex}
use strk20_indexer.Feed.Manifest.{epoch_entry}
use strk20_indexer.Map.{meta_get, meta_insert, last}
use strk20_indexer.Consumer.Number.{parse_u64}
use strk20_indexer.Consumer.Reply.{done}
use strk20_indexer.Consumer.Mem.{Inner, NoteRow, number_or_zero, read_slot_as_of, slots}
use strk20_indexer.Consumer.Mem.View.{is_empty, full_slot_set_as_of}
use strk20_indexer.Consumer.State.{
  history_floor_of, set_meta, state_checks, storage_root_at, verify_state,
}
use strk20_indexer.Consumer.Act.{Act, ◌>>=◌}
use strk20_indexer.Consumer.Apply.{apply_epochs, apply_epoch, is_applied}
use strk20_indexer.Consumer.Apply.Tail.{apply_tail, kept_tail, epoch_floor}
use strk20_indexer.Consumer.Apply.Start.{
  auto, ApplyOutcome, pin_identity, check_pinned_chain, stored_hash, check_diverged, start_cold,
  run_epochs, run_tail, apply_feed_once,
}
use strk20_indexer.Consumer.Anchors.{anchored, recorded_pool, ground_on, ground_mirror_against_rpc}
use strk20_indexer.Consumer.Sync.{SyncOptions, sync_once, prune_missing_notes}
use strk20_indexer.Consumer.Sync.Trusted.{IsSynced, sync_once-IsSynced}
use strk20_indexer.Consumer.Sync.Pruned.{is_gone, is_named, prune_missing_notes-eq}
use strk20_indexer.Examples.World.{crypto, host, json_of}
use strk20_indexer.Examples.Trusted.{trusted, docs, from_value, returned}
use strk20_indexer.Examples.State.{mirror, name_of_checkpoint, pool_slots, pool_root}
use strk20_indexer.Examples.Start.{quiet, applied, unchanged}
use strk20_indexer.Examples.Anchors.{proofs, message}

abbrev pool_mirror : Inner
pool_mirror = record applied { storage = mirror.storage }

continued :
    apply_feed_once crypto host (json_of docs) quiet auto pool_mirror
    ≡ (done unchanged, pool_mirror)
unfolding apply_feed_once ◌>>=◌ pin_identity check_pinned_chain felt_from_hex start_cold is_empty
    meta_get parse_u64 stored_hash check_diverged epoch_entry run_epochs apply_epochs apply_epoch
    is_applied epoch_floor number_or_zero run_tail apply_tail kept_tail history_floor_of
continued = refl

folded : full_slot_set_as_of 12 (set_meta "verification_failed" "1" pool_mirror) ≡ pool_slots
unfolding full_slot_set_as_of slots read_slot_as_of last set_meta
folded = refl

checked : state_checks crypto trusted 472 (set_meta "verification_failed" "1" pool_mirror) ≡ done tt
unfolding state_checks storage_root_at number_or_zero meta_get set_meta meta_insert parse_u64
    felt_from_hex
checked = rw (folded, pool_root) refl

abbrev vouched : Inner
vouched =
    set_meta "verification_failed" "0"
      (set_meta "verified_checkpoint" "SN_MAIN" (set_meta "verification_failed" "1" pool_mirror))

matched : verify_state name_of_checkpoint crypto trusted 472 pool_mirror ≡ (done tt, vouched)
unfolding verify_state
matched = rw (verify_state, checked) refl

grounded :
    ground_mirror_against_rpc message message name_of_checkpoint crypto
      (json_of docs)
      from_value
      proofs
      21
      pool_mirror
    ≡ (done (anchored 12), vouched)
unfolding ground_mirror_against_rpc ground_on recorded_pool ◌>>=◌ meta_get
grounded = rw (ground_on, ◌>>=◌, returned, matched) refl

-- the passes of the engine, as a function that hands on what was verified
abbrev discover : ApplyOutcome → String → Act String
discover outcome verified g = (done verified, g)

abbrev opts : SyncOptions
opts = record { cold_start = auto; anchor_proofs = some proofs }

synced :
    sync_once crypto host
      (json_of docs)
      quiet
      message
      message
      name_of_checkpoint
      from_value
      discover
      opts
      pool_mirror
    ≡ (done "rpc-verified", vouched)
unfolding sync_once ◌>>=◌ set_meta meta_get meta_insert
synced = rw (sync_once, ◌>>=◌, continued, grounded) refl

sync_once-IsSynced_example :
    IsSynced crypto host
      (json_of docs)
      quiet
      message
      message
      name_of_checkpoint
      from_value
      discover
      opts
      pool_mirror
      "rpc-verified"
      vouched
sync_once-IsSynced_example =
    sync_once-IsSynced crypto host (json_of docs) quiet message message name_of_checkpoint
      from_value discover opts pool_mirror vouched "rpc-verified" synced

abbrev note : NoteRow
note = record {
  note_id = 1;
  owner = 2;
  sender = 3;
  token = 4;
  index = 0;
  nullifier = 6;
  amount = 100;
  block = 20;
  spent = true;
}

abbrev registry : Inner
registry = record mirror { notes = (1, note) ∷ (9, record note { note_id = 9 }) ∷ [] }

prune_missing_notes-eq_example : prune_missing_notes (λ id. id) 12 2 registry ≡ (
  length (keep (λ e. is_gone (λ id. id) 12 registry 2 e.1) registry.notes),
  record registry {
    notes = keep (λ e. not (is_named (λ id. id) 12 registry 2 registry.notes e.0)) registry.notes;
  },
)
prune_missing_notes-eq_example = prune_missing_notes-eq (λ id. id) 12 2 registry
