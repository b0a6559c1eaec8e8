-- ===== src/Examples/Apply.antt =====
-- The first epoch of the small feed, folded into an empty mirror.
use strk20_indexer.Prelude.{◌≡◌, ◌⊎◌, refl, true, false, none, some, [], ◌∷◌}
use strk20_indexer.Feed.Felt.{felt_from_hex}
use strk20_indexer.Feed.Host.{ends_with_newline, lines}
use strk20_indexer.Feed.Decimal.{decimal}
use strk20_indexer.Feed.Codec.{check_structure, check_order, check_rows, count_diffs, count_events}
use strk20_indexer.Feed.Codec.Parse.{
  collect, get_str, get_u64, get_felt, parse_blk, parse_footer, check_epoch_blocks, scan_line,
  scan_lines, parse_lines, parse_prev, parse_epoch,
}
use strk20_indexer.Feed.Manifest.{
  Genesis, Manifest, hash_eq, verify_epoch_against_manifest, verify_epoch_binding,
}
use strk20_indexer.Consumer.Reply.{done}
use strk20_indexer.Consumer.Number.{parse_u64}
use strk20_indexer.Map.{insert, meta_get, meta_insert}
use strk20_indexer.Consumer.Mem.{Inner, replace_range}
use strk20_indexer.Consumer.Mem.View.{block_hashes}
use strk20_indexer.Consumer.Apply.{
  Transport, Progress, contradicts, is_applied, fold_epoch, fetch_and_fold, apply_epoch,
}
use strk20_indexer.Consumer.Apply.Epochs.{IsPast, IsFolded, apply_epoch_lem}
use strk20_indexer.Examples.World.{crypto, host, json_of, digest}
use strk20_indexer.Examples.Feed.{docs, epoch_0_file, head_file, entry_0, entry_1, snapshot_entry}

abbrev pub genesis : Genesis
genesis = record {
  format = "strk20";
  v = 1;
  chain_id = "SN_MAIN";
  pool = "0x5";
  genesis_block = 3;
  epoch_size = 10;
}

abbrev pub manifest : Manifest
manifest = record {
  v = 1;
  chain_id = "SN_MAIN";
  pool = "0x5";
  genesis_block = 3;
  epoch_size = 10;
  head = record { number = 21; hash = "0x7"; l1_accepted = 20; class = "0xf"; decode_state = "ok" };
  latest_epoch = some 1;
  epochs = entry_0 ∷ entry_1 ∷ [];
  snapshot = some (record snapshot_entry { zst = "other" });
}

abbrev pub transport : Transport
transport = record {
  fetch_genesis = done genesis;
  fetch_manifest = done manifest;
  -- a compressed file is one byte here
  fetch_snapshot = λ e. done (1 ∷ []);
  fetch_epoch = λ e. done epoch_0_file;
  fetch_head = λ tag. done (some (head_file, "tag"));
  decompress = λ b cap name. done b;
}

abbrev empty_mirror : Inner
empty_mirror = record {
  meta = [];
  blocks = [];
  storage = [];
  storage_max_block = 0;
  events = [];
  notes = [];
}

abbrev start : Progress
start = record {
  store = empty_mirror;
  last_applied = none;
  prev_hash = none;
  epochs_applied = 0;
  tail_rewound = false;
}

abbrev first_fold : Progress
first_fold = record {
  store = record {
    meta = ("last_epoch_applied", "0") ∷ ("last_epoch_hash", "eight") ∷ ("last_epoch_to", "9") ∷ [];
    blocks =
        (3, record { hash = 7; parent = 4; timestamp = 100; l1_final = true })
        ∷ (4, record { hash = 9; parent = 7; timestamp = 101; l1_final = true })
        ∷ [];
    storage = ((5, 3), 7) ∷ [];
    storage_max_block = 3;
    events = ((3, 0), record { tx_index = 0; tx_hash = 9; keys = 1 ∷ []; payload = [] }) ∷ [];
    notes = [];
  };
  last_applied = some 0;
  prev_hash = some (digest epoch_0_file);
  epochs_applied = 1;
  tail_rewound = false;
}

folded :
    apply_epoch crypto host (json_of docs) transport "SN_MAIN" 5 entry_0 start ≡ done first_fold
unfolding apply_epoch is_applied fetch_and_fold fold_epoch contradicts verify_epoch_binding
    verify_epoch_against_manifest hash_eq parse_epoch parse_lines scan_lines scan_line parse_blk
    parse_footer collect get_str get_u64 get_felt felt_from_hex check_structure check_order
    check_rows count_diffs count_events parse_prev check_epoch_blocks ends_with_newline lines
    block_hashes replace_range insert meta_get meta_insert parse_u64 decimal
folded = refl

apply_epoch_lem_example :
    (IsPast none 0 × (first_fold ≡ start))
    ⊎ ((¬ IsPast none 0)
        × IsFolded crypto host (json_of docs) transport "SN_MAIN" 5 entry_0 start first_fold)
apply_epoch_lem_example =
    apply_epoch_lem crypto host (json_of docs) transport "SN_MAIN" 5 entry_0 start first_fold folded
