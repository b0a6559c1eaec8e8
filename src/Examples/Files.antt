-- ===== src/Examples/Files.antt =====
-- The decoders and the chain check on the files of the small feed.
use strk20_indexer.Prelude.{◌≡◌, ◌≢◌, ◌⊎◌, refl, true, Option, some, none, List, [], ◌∷◌}
use strk20_indexer.Feed.Error.{ok}
use strk20_indexer.Feed.Felt.{felt_from_hex}
use strk20_indexer.Feed.Host.{Bytes, ends_with_newline, lines}
use strk20_indexer.Feed.Codec.{
  assert_invariants, check_structure, check_order, check_rows, count_diffs, count_events,
}
use strk20_indexer.Feed.Codec.Parse.{
  collect, get_str, get_u64, get_felt, parse_blk, parse_footer, check_epoch_blocks,
  check_head_blocks, scan_line, scan_lines, parse_lines, parse_prev, parse_epoch, parse_head,
}
use strk20_indexer.Feed.Codec.Valid.{
  IsEpoch, IsHead, parse_epoch_lem, parse_epoch-assert_invariants, parse_head_lem,
}
use strk20_indexer.Feed.Manifest.{
  ManifestEpoch, bytes_eq, hash_eq, verify_epoch_binding, verify_epoch_against_manifest,
  verify_chain_from, verify_chain,
}
use strk20_indexer.Feed.Manifest.Chain.{IsChain, verify_epoch_binding_lem, verify_chain-IsChain}
use strk20_indexer.Feed.Manifest.Pinned.{DigestCollision, payloads, verify_chain_pinned}
use strk20_indexer.Examples.World.{crypto, host, json_of, digest}
use strk20_indexer.Examples.Feed.{
  docs, epoch_0_file, epoch_1_file, head_file, epoch_0, epoch_1, head_0, entry_0, entry_1,
  other_entry_1,
}

epoch_0_parsed : parse_epoch crypto host (json_of docs) epoch_0_file ≡ ok epoch_0
unfolding parse_epoch parse_lines scan_lines scan_line parse_blk parse_footer collect get_str
    get_u64 get_felt felt_from_hex check_structure check_order check_rows count_diffs count_events
    parse_prev check_epoch_blocks ends_with_newline lines
epoch_0_parsed = refl

parse_epoch_lem_example : IsEpoch epoch_0
parse_epoch_lem_example =
    parse_epoch_lem crypto host (json_of docs) epoch_0_file epoch_0 epoch_0_parsed

parse_epoch-assert_invariants_example : assert_invariants epoch_0.blocks ≡ true
parse_epoch-assert_invariants_example =
    parse_epoch-assert_invariants crypto host (json_of docs) epoch_0_file epoch_0 epoch_0_parsed

pub head_parsed : parse_head crypto host (json_of docs) head_file ≡ ok head_0
unfolding parse_head parse_lines scan_lines scan_line parse_blk parse_footer collect get_str get_u64
    get_felt felt_from_hex check_structure check_order check_rows count_diffs count_events
    check_head_blocks ends_with_newline lines
head_parsed = refl

parse_head_lem_example : IsHead head_0
parse_head_lem_example = parse_head_lem crypto host (json_of docs) head_file head_0 head_parsed

epoch_0_bound : verify_epoch_binding epoch_0 "SN_MAIN" 5 ≡ ok tt
unfolding verify_epoch_binding
epoch_0_bound = refl

verify_epoch_binding_lem_example : (epoch_0.header.chain_id ≡ "SN_MAIN") × (epoch_0.header.pool ≡ 5)
verify_epoch_binding_lem_example = verify_epoch_binding_lem epoch_0 "SN_MAIN" 5 epoch_0_bound

abbrev link : Option Bytes
link = some (digest epoch_0_file)

epoch_1_verified :
    verify_epoch_against_manifest crypto host (json_of docs) epoch_1_file entry_1 link ≡ ok epoch_1
unfolding verify_epoch_against_manifest hash_eq bytes_eq parse_epoch parse_lines scan_lines
    scan_line parse_blk parse_footer collect get_str get_u64 get_felt felt_from_hex check_structure
    check_order check_rows count_diffs count_events parse_prev check_epoch_blocks ends_with_newline
    lines
epoch_1_verified = refl

epoch_0_verified :
    verify_epoch_against_manifest crypto host (json_of docs) epoch_0_file entry_0 none ≡ ok epoch_0
unfolding verify_epoch_against_manifest hash_eq
epoch_0_verified = rw epoch_0_parsed refl

abbrev chain : ManifestEpoch → List (ManifestEpoch × Bytes)
chain last = (entry_0, epoch_0_file) ∷ (last, epoch_1_file) ∷ []

chain_verified :
    verify_chain crypto host (json_of docs) (chain entry_1) ≡ ok (epoch_0 ∷ epoch_1 ∷ [])
unfolding verify_chain verify_chain_from
chain_verified = rw (epoch_0_verified, epoch_1_verified) refl

verify_chain-IsChain_example :
    IsChain crypto host (json_of docs) none (chain entry_1) (epoch_0 ∷ epoch_1 ∷ [])
verify_chain-IsChain_example =
    verify_chain-IsChain crypto host (json_of docs) (chain entry_1) (epoch_0 ∷ epoch_1 ∷ [])
      chain_verified

other_verified :
    verify_epoch_against_manifest crypto host (json_of docs) epoch_1_file other_entry_1 link
    ≡ ok epoch_1
unfolding verify_epoch_against_manifest hash_eq bytes_eq parse_epoch parse_lines scan_lines
    scan_line parse_blk parse_footer collect get_str get_u64 get_felt felt_from_hex check_structure
    check_order check_rows count_diffs count_events parse_prev check_epoch_blocks ends_with_newline
    lines
other_verified = refl

other_chain_verified :
    verify_chain crypto host (json_of docs) (chain other_entry_1) ≡ ok (epoch_0 ∷ epoch_1 ∷ [])
unfolding verify_chain verify_chain_from
other_chain_verified = rw (epoch_0_verified, other_verified) refl

not_empty : chain entry_1 ≢ []
not_empty h = cc

verify_chain_pinned_example :
    (payloads (chain entry_1) ≡ payloads (chain other_entry_1)) ⊎ DigestCollision host
verify_chain_pinned_example =
    verify_chain_pinned crypto host (json_of docs) (chain entry_1) (chain other_entry_1)
      (epoch_0 ∷ epoch_1 ∷ []) (epoch_0 ∷ epoch_1 ∷ []) not_empty refl chain_verified
      other_chain_verified refl
