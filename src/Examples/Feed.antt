-- ===== src/Examples/Feed.antt =====
-- The files of a small feed, as documents, and what they are decoded to.
use strk20_indexer.Prelude.{some, none, List, [], ◌∷◌}
use strk20_indexer.Feed.Host.{Bytes}
use strk20_indexer.Feed.Codec.{Epoch, Head, BlockLine, l1}
use strk20_indexer.Feed.Manifest.{ManifestEpoch, ManifestSnapshot}
use strk20_indexer.Feed.Snapshot.{Snapshot, FeedIdentity}
use strk20_indexer.Examples.World.{
  Doc, null, text, number, array, object, nil, cons, end, field, digest,
}

abbrev epoch_0_header : Doc
epoch_0_header = object (
    field "t" (text "hdr") (
      field "kind" (text "strk20-epoch") (
        field "v" (number 1) (
          field "chain_id" (text "SN_MAIN") (
            field "pool" (text "0x5") (
              field "epoch" (number 0)
                (field "from" (number 0) (field "to" (number 9) (field "prev" null end)))))))))

abbrev block_3 : Doc
block_3 = object (
    field "t" (text "blk") (
      field "b" (number 3) (
        field "h" (text "0x7") (
          field "p" (text "0x4") (
            field "ts" (number 100) (
              field "d" (array (cons (array (cons (text "0x5") (cons (text "0x7") nil))) nil)) (
                field "e"
                  (array (
                    cons
                      (array (
                        cons (number 0) (
                          cons (number 0) (
                            cons (text "0x9")
                              (cons (array (cons (text "0x1") nil)) (cons (array nil) nil))))))
                      nil))
                  end)))))))

abbrev block_4 : Doc
block_4 = object (
    field "t" (text "blk") (
      field "b" (number 4) (
        field "h" (text "0x9") (
          field "p" (text "0x7")
            (field "ts" (number 101) (field "d" (array nil) (field "e" (array nil) end)))))))

abbrev epoch_0_end : Doc
epoch_0_end = object (
    field "t" (text "end") (
      field "blocks" (number 2)
        (field "diffs" (number 1) (field "events" (number 1) (field "class" (text "0xf") end)))))

abbrev epoch_1_header : Doc
epoch_1_header = object (
    field "t" (text "hdr") (
      field "kind" (text "strk20-epoch") (
        field "v" (number 1) (
          field "chain_id" (text "SN_MAIN") (
            field "pool" (text "0x5") (
              field "epoch" (number 1) (
                field "from" (number 10)
                  (field "to" (number 19) (field "prev" (text "eight") end)))))))))

abbrev epoch_1_end : Doc
epoch_1_end = object (
    field "t" (text "end") (
      field "blocks" (number 0)
        (field "diffs" (number 0) (field "events" (number 0) (field "class" (text "0xf") end)))))

abbrev head_header : Doc
head_header = object (
    field "t" (text "hdr") (
      field "kind" (text "strk20-head") (
        field "v" (number 1) (
          field "tail_from" (number 20) (
            field "head" (number 21)
              (field "head_hash" (text "0x9") (field "l1_accepted" (number 20) end)))))))

abbrev block_20 : Doc
block_20 = object (
    field "t" (text "blk") (
      field "b" (number 20) (
        field "h" (text "0x7") (
          field "p" (text "0x4") (
            field "ts" (number 102)
              (field "d" (array nil) (field "e" (array nil) (field "fin" (text "l1") end))))))))

abbrev head_end : Doc
head_end = object (
    field "t" (text "end") (
      field "blocks" (number 1)
        (field "diffs" (number 0) (field "events" (number 0) (field "class" (text "0xf") end)))))

abbrev snapshot_header : Doc
snapshot_header = object (
    field "t" (text "hdr") (
      field "v" (number 1) (
        field "kind" (text "strk20-snapshot") (
          field "chain_id" (text "SN_MAIN") (
            field "pool" (text "0x5") (
              field "epoch" (number 1) (
                field "block" (number 19) (
                  field "epoch_hash" (text "four")
                    (field "storage_root" (text "0x1d8") (field "class" (text "0xf") end))))))))))

abbrev slot_5 : Doc
slot_5 = object (
    field "t" (text "s")
      (field "k" (text "0x5") (field "v" (text "0x7") (field "w" (number 3) end))))

abbrev slot_9 : Doc
slot_9 = object (
    field "t" (text "s")
      (field "k" (text "0x9") (field "v" (text "0x4") (field "w" (number 19) end))))

abbrev snapshot_end : Doc
snapshot_end = object (field "t" (text "end") (field "slots" (number 2) end))

abbrev pub docs : List Doc
docs =
    epoch_0_header ∷ block_3 ∷ block_4 ∷ epoch_0_end ∷ epoch_1_header ∷ epoch_1_end ∷ head_header
    ∷ block_20 ∷ head_end ∷ snapshot_header ∷ null ∷ slot_5 ∷ slot_9 ∷ null ∷ snapshot_end ∷ []

abbrev pub epoch_0_file : Bytes
epoch_0_file = 0 ∷ 10 ∷ 1 ∷ 10 ∷ 2 ∷ 10 ∷ 3 ∷ 10 ∷ []

abbrev pub epoch_1_file : Bytes
epoch_1_file = 4 ∷ 10 ∷ 5 ∷ 10 ∷ []

abbrev pub head_file : Bytes
head_file = 6 ∷ 10 ∷ 7 ∷ 10 ∷ 8 ∷ 10 ∷ []

abbrev pub snapshot_file : Bytes
snapshot_file = 9 ∷ 10 ∷ 11 ∷ 10 ∷ 12 ∷ 10 ∷ 14 ∷ 10 ∷ []

abbrev block_line_3 : BlockLine
block_line_3 = record {
  number = 3;
  hash = 7;
  parent = 4;
  timestamp = 100;
  diffs = (5, 7) ∷ [];
  events = record { tx_index = 0; event_index = 0; tx_hash = 9; keys = 1 ∷ []; payload = [] } ∷ [];
  replaced_class = none;
  finality = none;
}

abbrev block_line_4 : BlockLine
block_line_4 = record {
  number = 4;
  hash = 9;
  parent = 7;
  timestamp = 101;
  diffs = [];
  events = [];
  replaced_class = none;
  finality = none;
}

abbrev pub epoch_0 : Epoch
epoch_0 = record {
  header = record { chain_id = "SN_MAIN"; pool = 5; epoch = 0; from = 0; to = 9; prev = none };
  blocks = block_line_3 ∷ block_line_4 ∷ [];
  footer = record { blocks = 2; diffs = 1; events = 1; class = 15 };
}

abbrev pub epoch_1 : Epoch
epoch_1 = record {
  header = record {
    chain_id = "SN_MAIN";
    pool = 5;
    epoch = 1;
    from = 10;
    to = 19;
    prev = some (digest epoch_0_file);
  };
  blocks = [];
  footer = record { blocks = 0; diffs = 0; events = 0; class = 15 };
}

abbrev pub head_0 : Head
head_0 = record {
  header = record { tail_from = 20; head = 21; head_hash = 9; l1_accepted = 20 };
  blocks =
      record {
        number = 20;
        hash = 7;
        parent = 4;
        timestamp = 102;
        diffs = [];
        events = [];
        replaced_class = none;
        finality = some l1;
      }
      ∷ [];
  footer = record { blocks = 1; diffs = 0; events = 0; class = 15 };
}

abbrev pub snapshot_0 : Snapshot
snapshot_0 = record {
  header = record {
    v = 1;
    kind = "strk20-snapshot";
    chain_id = "SN_MAIN";
    pool = 5;
    epoch = 1;
    block = 19;
    epoch_hash = "four";
    storage_root = 472;
    class = 15;
  };
  slots = record { k = 5; v = 7; w = 3 } ∷ record { k = 9; v = 4; w = 19 } ∷ [];
}

-- the manifest's entries; `bytes` is not looked at
abbrev pub entry_0 : ManifestEpoch
entry_0 = record { e = 0; from = 0; to = 9; hash = "eight"; zst = ""; bytes = 8; anchor = none }

abbrev pub entry_1 : ManifestEpoch
entry_1 = record { e = 1; from = 10; to = 19; hash = "four"; zst = ""; bytes = 4; anchor = none }

abbrev pub other_entry_1 : ManifestEpoch
other_entry_1 = record entry_1 { zst = "again" }

abbrev pub snapshot_entry : ManifestSnapshot
snapshot_entry = record {
  e = 1;
  block = 19;
  epoch_hash = "four";
  file = "snapshots/00000001.strk20s.zst";
  hash = "eight";
  zst = "packed";
  bytes = 8;
  slots = 2;
  storage_root = "0x1d8";
  anchor = none;
  grounding = "none";
}

abbrev pub identity : FeedIdentity
identity = record { chain_id = "SN_MAIN"; pool = 5 }
