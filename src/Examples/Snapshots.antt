-- ===== src/Examples/Snapshots.antt =====
-- The snapshot of the small feed.
use strk20_indexer.Prelude.{◌≡◌, refl}
use strk20_indexer.Feed.Error.{ok}
use strk20_indexer.Feed.Felt.{bit_at, felt_from_hex}
use strk20_indexer.Feed.Host.{ends_with_newline, lines}
use strk20_indexer.Feed.Mpt.{
  tree_height, storage_root, subtree_hash_at, hash_of, subtree, entries_with_prefix, bit_entries,
  dedup_bits, sort_bits, insert_sorted, bits_lt, key_bits, key_bits_from, key_bit, dedup_from,
  bits_eq, join, resolve, bits_to_felt,
}
use strk20_indexer.Feed.Mpt.Spec.{root_of}
use strk20_indexer.Feed.Mpt.Sorted.{value_at}
use strk20_indexer.Feed.Decimal.{decimal8}
use strk20_indexer.Feed.Snapshot.{
  snapshot_file_name, follows, str_field, u64_field, felt_field, parse_header, parse_slot,
  parse_end, parse_record, parse_rows, parse_body, parse, check_zst_hash, decode_snapshot_payload,
  slot_pairs, storage_root_of, verify_snapshot_payload,
}
use strk20_indexer.Feed.Snapshot.Valid.{
  IsBound, decode_snapshot_payload-IsBound, verify_snapshot_payload_lem,
}
use strk20_indexer.Examples.World.{crypto, host, json_of}
use strk20_indexer.Examples.Feed.{docs, snapshot_file, snapshot_0, snapshot_entry, identity}

pub snapshot_parsed : parse crypto host (json_of docs) snapshot_file ≡ ok snapshot_0
unfolding parse parse_body parse_rows parse_record parse_slot parse_end parse_header follows
    str_field u64_field felt_field felt_from_hex ends_with_newline lines
snapshot_parsed = refl

snapshot_decoded :
    decode_snapshot_payload crypto host
      (json_of docs)
      snapshot_file
      "packed"
      snapshot_entry
      "four"
      identity
    ≡ ok snapshot_0
unfolding decode_snapshot_payload check_zst_hash snapshot_file_name decimal8
snapshot_decoded = rw snapshot_parsed refl

decode_snapshot_payload-IsBound_example :
    IsBound crypto host
      (json_of docs)
      snapshot_file
      "packed"
      snapshot_entry
      "four"
      identity
      snapshot_0
decode_snapshot_payload-IsBound_example =
    decode_snapshot_payload-IsBound crypto host (json_of docs) snapshot_file "packed" snapshot_entry
      "four" identity snapshot_0 snapshot_decoded

snapshot_root : storage_root_of crypto snapshot_0 ≡ 472
unfolding storage_root_of slot_pairs storage_root subtree_hash_at hash_of subtree
    entries_with_prefix bit_entries dedup_bits sort_bits insert_sorted bits_lt key_bits
    key_bits_from key_bit bit_at dedup_from bits_eq join resolve bits_to_felt
snapshot_root = refl

snapshot_verified :
    verify_snapshot_payload crypto host
      (json_of docs)
      snapshot_file
      "packed"
      snapshot_entry
      "four"
      identity
    ≡ ok snapshot_0
unfolding verify_snapshot_payload felt_from_hex
snapshot_verified = rw (snapshot_decoded, snapshot_root) refl

verify_snapshot_payload_lem_example :
    IsBound crypto host
      (json_of docs)
      snapshot_file
      "packed"
      snapshot_entry
      "four"
      identity
      snapshot_0
    × (snapshot_0.header.storage_root
        ≡ root_of crypto tree_height (value_at (slot_pairs snapshot_0)))
    × (felt_from_hex crypto snapshot_entry.storage_root ≡ ok snapshot_0.header.storage_root)
verify_snapshot_payload_lem_example =
    verify_snapshot_payload_lem crypto host (json_of docs) snapshot_file "packed" snapshot_entry
      "four" identity snapshot_0 snapshot_verified
