-- ===== src/Examples/Tail.antt =====
-- The head file of the small feed, folded above the floor 19.
use strk20_indexer.Prelude.{◌≡◌, ◌⊎◌, refl, some, true, false, [], ◌∷◌, String, arith}
use strk20_indexer.Feed.Codec.{Head}
use strk20_indexer.Feed.Codec.Valid.{IsHead}
use strk20_indexer.Feed.Codec.Parse.{parse_head}
use strk20_indexer.Feed.Error.{ok}
use strk20_indexer.Feed.Host.{Bytes}
use strk20_indexer.Feed.Felt.{byte}
use strk20_indexer.Feed.Decimal.{decimal}
use strk20_indexer.Feed.Hex.{felt_hex}
use strk20_indexer.Consumer.Reply.{done}
use strk20_indexer.Consumer.Number.{parse_u64}
use strk20_indexer.Map.{insert, meta_get, meta_insert}
use strk20_indexer.Consumer.Mem.{Inner, number_or_zero, read_slot_as_of, replace_range}
use strk20_indexer.Consumer.Mem.View.{block_hashes}
use strk20_indexer.Consumer.Apply.Tail.{
  TailOutcome, tail_blocks, tail_contradicts, epoch_floor, fold_tail, apply_tail,
}
use strk20_indexer.Consumer.Apply.Floor.{
  IsKept, IsFetched, IsRebuilt, apply_tail_lem, fold_tail_below,
}
use strk20_indexer.Examples.World.{crypto, host, json_of}
use strk20_indexer.Examples.Feed.{docs, head_0}
use strk20_indexer.Examples.Files.{head_parsed}
use strk20_indexer.Examples.Apply.{transport}

abbrev at_19 : Inner
at_19 = record {
  meta = ("last_epoch_to", "19") ∷ [];
  blocks = [];
  storage = ((5, 3), 7) ∷ [];
  storage_max_block = 3;
  events = [];
  notes = [];
}

abbrev rebuilt : TailOutcome
rebuilt = record {
  store = record at_19 {
    meta =
        ("last_epoch_to", "19")
        ∷ ("head_etag", "tag")
        ∷ ("head_number", "21")
        ∷ ("head_hash", "0xother")
        ∷ ("l1_accepted", "20")
        ∷ [];
    blocks = (20, record { hash = 7; parent = 4; timestamp = 102; l1_final = true }) ∷ [];
  };
  tail_rewound = false;
  tail_changed = true;
  head = 21;
  l1_accepted = 20;
}

tail_folded : fold_tail crypto host (json_of docs) transport at_19 false head_0 "tag" ≡ done rebuilt
unfolding fold_tail epoch_floor number_or_zero meta_get meta_insert parse_u64 decimal felt_hex byte
    block_hashes tail_contradicts tail_blocks replace_range insert
tail_folded = refl

tail_applied : apply_tail crypto host (json_of docs) transport at_19 false ≡ done rebuilt
unfolding apply_tail
tail_applied = rw (apply_tail, head_parsed) tail_folded

apply_tail_lem_example :
    IsKept crypto host (json_of docs) transport at_19 false rebuilt
    ⊎ ((payload : Bytes) × (etag : String) × (head : Head) × IsFetched crypto host
          (json_of docs)
          transport
          at_19
          (some (payload, etag))
        × (parse_head crypto host (json_of docs) payload ≡ ok head)
        × IsHead head
        × IsRebuilt crypto host (json_of docs) transport at_19 false head etag rebuilt)
apply_tail_lem_example =
    apply_tail_lem crypto host (json_of docs) transport at_19 false rebuilt tail_applied

floor_19 : epoch_floor at_19 ≡ 19
unfolding epoch_floor number_or_zero meta_get parse_u64
floor_19 = refl

fold_tail_below_example : read_slot_as_of rebuilt.store 5 19 ≡ read_slot_as_of at_19 5 19
fold_tail_below_example =
    fold_tail_below crypto host (json_of docs) transport at_19 false head_0 "tag" rebuilt 5 19
      (record { sorted = (tt, tt); bounded = (omega arith, tt) }) (omega (arith, floor_19))
      (omega (arith, floor_19), tt) (omega (arith, floor_19)) tail_folded
