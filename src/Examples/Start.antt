-- ===== src/Examples/Start.antt =====
-- The start of a fold: from a snapshot on an empty mirror, and on a mirror that goes on.
use strk20_indexer.Prelude.{◌≡◌, refl, false, none, [], ◌∷◌}
use strk20_indexer.Feed.Felt.{felt_from_hex}
use strk20_indexer.Feed.Manifest.{ManifestSnapshot, epoch_entry}
use strk20_indexer.Map.{meta_get}
use strk20_indexer.Consumer.Number.{parse_u64}
use strk20_indexer.Consumer.Reply.{done}
use strk20_indexer.Consumer.Mem.{Inner, install_snapshot, number_or_zero}
use strk20_indexer.Consumer.Mem.Mirror.{IsMirror}
use strk20_indexer.Consumer.Mem.Steps.{new_store, Reachable, fresh}
use strk20_indexer.Consumer.Mem.View.{is_empty}
use strk20_indexer.Consumer.State.{history_floor_of}
use strk20_indexer.Consumer.Act.{◌>>=◌}
use strk20_indexer.Consumer.Apply.{Transport, apply_epochs, apply_epoch, is_applied}
use strk20_indexer.Consumer.Apply.Tail.{apply_tail, kept_tail, epoch_floor}
use strk20_indexer.Consumer.Apply.Start.{
  auto, ApplyOutcome, pin_identity, check_pinned_chain, stored_hash, check_diverged, start_cold,
  run_epochs, run_tail, apply_feed_once, snapshot_meta,
}
use strk20_indexer.Consumer.Apply.Start.Runs.{apply_feed_once-IsMirror}
use strk20_indexer.Consumer.Apply.Start.Pinned.{IsContinued, apply_feed_once-IsContinued}
use strk20_indexer.Examples.World.{crypto, host, json_of, zeros}
use strk20_indexer.Examples.Feed.{docs, entry_1, snapshot_file, snapshot_0, snapshot_entry}
use strk20_indexer.Examples.Apply.{manifest, transport}

apply_feed_once-IsMirror_example :
    Reachable (apply_feed_once crypto host (json_of docs) transport auto new_store).1
    × IsMirror (apply_feed_once crypto host (json_of docs) transport auto new_store).1
apply_feed_once-IsMirror_example =
    apply_feed_once-IsMirror crypto host (json_of docs) transport auto new_store fresh

-- the snapshot's file as the transport hands it out
abbrev snapshots : Transport
snapshots = record transport { decompress = λ b cap name. done snapshot_file }

abbrev packed : ManifestSnapshot
packed = record snapshot_entry { zst = "other" }

abbrev cold_mirror : Inner
cold_mirror = install_snapshot snapshot_0.slots (snapshot_meta snapshot_0.header) new_store

-- a mirror that has applied the two epochs of the manifest
abbrev pub applied : Inner
applied = record {
  meta =
      ("pool", "0x5")
      ∷ ("chain_id", "SN_MAIN")
      ∷ ("last_epoch_applied", "1")
      ∷ ("last_epoch_hash", "eight")
      ∷ ("last_epoch_to", "19")
      ∷ ("head_number", "21")
      ∷ [];
  blocks = [];
  storage = ((5, 3), 7) ∷ [];
  storage_max_block = 3;
  events = [];
  notes = [];
}

-- nothing has changed since
abbrev pub quiet : Transport
quiet = record transport {
  fetch_manifest = done (record manifest { epochs = record entry_1 { hash = "eight" } ∷ [] });
  fetch_head = λ tag. done none;
}

abbrev pub unchanged : ApplyOutcome
unchanged = record {
  epochs_applied = 0;
  tail_rewound = false;
  tail_changed = false;
  head = 21;
  l1_accepted = 0;
  last_epoch_to = 19;
  snapshot_basis = none;
  history_floor = 0;
}

continued :
    apply_feed_once crypto host (json_of docs) quiet auto applied ≡ (done unchanged, applied)
unfolding apply_feed_once ◌>>=◌ pin_identity check_pinned_chain felt_from_hex start_cold is_empty
    meta_get parse_u64 stored_hash check_diverged epoch_entry run_epochs apply_epochs apply_epoch
    is_applied epoch_floor number_or_zero run_tail apply_tail kept_tail history_floor_of
continued = refl

apply_feed_once-IsContinued_example :
    IsContinued crypto host (json_of docs) quiet "0x5" "SN_MAIN" 1 (8 ∷ zeros 31)
unfolding meta_get parse_u64 stored_hash
apply_feed_once-IsContinued_example =
    apply_feed_once-IsContinued crypto host (json_of docs) quiet auto applied applied unchanged
      "0x5" "SN_MAIN" 1 (8 ∷ zeros 31) refl refl refl refl continued
