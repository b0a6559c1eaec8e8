-- ===== src/Examples/Anchors.antt =====
-- A log of two anchors of the pool of `Trusted`, against the mirror of `State`, and a proof source.
use strk20_indexer.Prelude.{◌≡◌, refl, true, some, List, [], ◌∷◌, String}
use strk20_indexer.Feed.Error.{ok}
use strk20_indexer.Feed.Felt.{felt_from_hex}
use strk20_indexer.Feed.Host.{Bytes, ends_with_newline, lines}
use strk20_indexer.Feed.Anchors.{
  AnchorRecord, is_nil, follows_last, parse_anchor, anchor_field, parse_anchor_lines, parse_anchors,
  encode_anchors, write_lines,
}
use strk20_indexer.Feed.Anchors.Ascending.{IsAscending, parse_anchors-encode_anchors}
use strk20_indexer.Map.{meta_get, get, last}
use strk20_indexer.Consumer.Reply.{Failure, bail, done}
use strk20_indexer.Consumer.Number.{parse_u64}
use strk20_indexer.Consumer.Mem.{Inner, number_or_zero, read_slot_as_of, slots}
use strk20_indexer.Consumer.Mem.View.{full_slot_set_as_of, block_hash}
use strk20_indexer.Consumer.Act.{◌>>=◌}
use strk20_indexer.Consumer.Anchors.{
  AnchorReport, verified, verify_anchors, report_of, count_anchors, count_anchor, root_problems,
  hash_problems, status_of, ProofSource, ground_mirror_against_rpc,
}
use strk20_indexer.Consumer.Anchors.Matched.{IsVerified, verify_anchors-IsVerified}
use strk20_indexer.Consumer.Anchors.Proved.{IsGrounded, ground_mirror_against_rpc-IsGrounded}
use strk20_indexer.Examples.World.{crypto, host, json_of, Doc, object, end, field, text, number}
use strk20_indexer.Examples.Trusted.{trusted, docs, from_value}
use strk20_indexer.Examples.State.{mirror, name_of_checkpoint, pool_slots, pool_root}

abbrev log_docs : List Doc
log_docs =
    object (
      field "block" (number 12) (
        field "block_hash" (text "0x7")
          (field "storage_root" (text "0x1d8") (field "class" (text "0x9") end))))
    ∷ object (
        field "block" (number 13) (
          field "block_hash" (text "0x7")
            (field "storage_root" (text "0x70") (field "class" (text "0x9") end))))
    ∷ []

abbrev payload : Bytes
payload = 0 ∷ 10 ∷ 1 ∷ 10 ∷ []

abbrev anchors : List AnchorRecord
anchors =
    record { block = 12; block_hash = 7; storage_root = 472; class = 9 }
    ∷ record { block = 13; block_hash = 7; storage_root = 112; class = 9 }
    ∷ []

parsed : parse_anchors crypto host (json_of log_docs) payload ≡ ok anchors
unfolding parse_anchors parse_anchor_lines parse_anchor anchor_field is_nil follows_last
    ends_with_newline lines felt_from_hex
parsed = refl

parse_anchors-encode_anchors_example :
    IsAscending anchors × (encode_anchors host anchors ≡ ok (write_lines host anchors))
parse_anchors-encode_anchors_example =
    parse_anchors-encode_anchors crypto host (json_of log_docs) payload anchors parsed

abbrev report : AnchorReport
report = record {
  all_ok = true;
  status = verified;
  published = 2;
  tally = record { problems = []; checked = 1; pending = 1 };
  head = 12;
}

abbrev stored : Inner
stored = record mirror {
  blocks = (12, record { hash = 7; parent = 6; timestamp = 0; l1_final = true }) ∷ [];
}

folded : full_slot_set_as_of 12 stored ≡ pool_slots
unfolding full_slot_set_as_of slots read_slot_as_of last
folded = refl

reported :
    verify_anchors crypto host (json_of log_docs) (done (some payload)) stored
    ≡ (done report, stored)
unfolding verify_anchors report_of count_anchors count_anchor root_problems hash_problems status_of
    number_or_zero meta_get parse_u64 block_hash get is_nil ◌>>=◌
reported =
    rw
      (
        verify_anchors, ◌>>=◌, parsed, report_of, count_anchors, count_anchor, root_problems,
        folded, pool_root,
      )
      refl

verify_anchors-IsVerified_example :
    (p : Bytes) × (xs : List AnchorRecord) × (done (some payload) ≡ done (some p))
    × (parse_anchors crypto host (json_of log_docs) p ≡ ok xs)
    × IsVerified crypto stored xs report
    × (stored ≡ stored)
verify_anchors-IsVerified_example =
    verify_anchors-IsVerified crypto host (json_of log_docs) (done (some payload)) stored stored
      report reported refl

abbrev pub proofs : ProofSource
proofs = record {
  checkpoint = λ pool block. done trusted;
  storage_proof = λ pool block. done (0 ∷ []);
}

abbrev pub message : Failure → String
message (bail s) = s
message _ = "other"

ground_mirror_against_rpc-IsGrounded_example :
    IsGrounded crypto (json_of docs) from_value proofs mirror 12 (
      ground_mirror_against_rpc message message name_of_checkpoint crypto
        (json_of docs)
        from_value
        proofs
        12
        mirror)
ground_mirror_against_rpc-IsGrounded_example =
    ground_mirror_against_rpc-IsGrounded crypto (json_of docs) from_value proofs mirror message
      message 12 name_of_checkpoint
