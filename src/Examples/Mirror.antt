-- ===== src/Examples/Mirror.antt =====
-- A mirror with two writes to one slot, of which the second is in the tail.
use strk20_indexer.Prelude.{
  ◌+◌, ◌%◌, ◌≤◌, ◌<◌, ◌≡◌, refl, Bool, true, false, none, some, List, [], ◌∷◌, String, arith,
  if◌then◌else◌,
}
use strk20_indexer.Feed.Codec.{BlockLine}
use strk20_indexer.Consumer.Number.{u64_max, parse_u64, parse_u64-decimal}
use strk20_indexer.Feed.Decimal.{decimal}
use strk20_indexer.Map.{insert, get, meta_get, meta_insert}
use strk20_indexer.Consumer.Mem.{
  BlockRec, NoteRow, Inner, above, contains, bounds, pair_lt, read_slot_as_of, tail_generation,
  replace_range,
}
use strk20_indexer.Consumer.Mem.Reads.{row, IsLatest, read_slot_as_of-IsLatest}
use strk20_indexer.Consumer.Mem.Rows.{or_else, written}
use strk20_indexer.Consumer.Mem.Mirror.{IsMirror}
use strk20_indexer.Consumer.Mem.Replace.{replace_range-row, replace_range_below}
use strk20_indexer.Consumer.Mem.Generation.{replace_range-tail_generation}
use strk20_indexer.Consumer.Mem.Steps.{
  meta_set, upserted, Reachable, fresh, after, new_store, Reachable-IsMirror,
}
use strk20_indexer.Consumer.Mem.Notes.{upsert_note}

abbrev block_20 : BlockRec
block_20 = record { hash = 7; parent = 4; timestamp = 102; l1_final = false }

abbrev block_21 : BlockRec
block_21 = record { hash = 9; parent = 7; timestamp = 103; l1_final = false }

abbrev line_21 : BlockLine
line_21 = record {
  number = 21;
  hash = 9;
  parent = 7;
  timestamp = 103;
  diffs = (5, 9) ∷ [];
  events = [];
  replaced_class = none;
  finality = none;
}

abbrev note : NoteRow
note = record {
  note_id = 1;
  owner = 2;
  sender = 3;
  token = 4;
  index = 0;
  nullifier = 6;
  amount = 100;
  block = 20;
  spent = true;
}

abbrev old_mirror : Inner
old_mirror = record {
  meta = ("tail_generation", "4") ∷ [];
  blocks = (20, block_20) ∷ [];
  storage = ((5, 3), 7) ∷ ((5, 20), 8) ∷ [];
  storage_max_block = 20;
  events = [];
  notes = (1, note) ∷ [];
}

abbrev new_mirror : Inner
new_mirror = record old_mirror {
  meta = ("tail_generation", "5") ∷ ("head_number", "21") ∷ [];
  blocks = (21, block_21) ∷ [];
  storage = ((5, 3), 7) ∷ ((5, 21), 9) ∷ [];
  storage_max_block = 21;
}

abbrev tail : List (BlockLine × Bool)
tail = (line_21, false) ∷ []

abbrev new_meta : List (String × String)
new_meta = ("head_number", "21") ∷ []

replaced : replace_range (above 19) tail new_meta true old_mirror ≡ some new_mirror
unfolding replace_range parse_u64 decimal insert meta_get meta_insert
replaced = refl

old-IsMirror : IsMirror old_mirror
unfolding pair_lt
old-IsMirror = record {
  sorted = ((refl, tt), (tt, tt));
  bounded = (omega arith, (omega arith, tt));
}

read_slot_as_of-IsLatest_example :
    IsLatest (row old_mirror.storage 5) 19 (read_slot_as_of old_mirror 5 19)
read_slot_as_of-IsLatest_example = read_slot_as_of-IsLatest old_mirror 5 19 old-IsMirror.sorted

replace_range-row_example :
    row new_mirror.storage 5 20
    ≡ or_else
        (written tail 5 20)
        (if contains (above 19) 20 then none else row old_mirror.storage 5 20)
replace_range-row_example =
    replace_range-row (above 19) tail new_meta true old_mirror new_mirror 5 20 old-IsMirror replaced

below_19 : 19 < (bounds (above 19)).0
unfolding bounds
below_19 = omega arith

none_below : (bounds (above 19)).0 ≤ 21
unfolding bounds
none_below = omega arith

replace_range_below_example : read_slot_as_of new_mirror 5 19 ≡ read_slot_as_of old_mirror 5 19
replace_range_below_example =
    replace_range_below (above 19) tail new_meta true old_mirror new_mirror 5 19 old-IsMirror
      (none_below, tt) below_19 replaced

replace_range-tail_generation_example : tail_generation new_mirror ≡ (
    if true then (tail_generation old_mirror + 1) % (u64_max + 1) else tail_generation old_mirror)
replace_range-tail_generation_example =
    replace_range-tail_generation (above 19) tail new_meta true old_mirror new_mirror (refl, tt)
      replaced

abbrev one_note : Inner
one_note = record {
  meta = ("pool", "0x5") ∷ [];
  blocks = [];
  storage = [];
  storage_max_block = 0;
  events = [];
  notes = (1, note) ∷ [];
}

reached : Reachable one_note
unfolding new_store upsert_note meta_insert get insert
reached = after (after fresh (meta_set "pool" "0x5")) (upserted note)

Reachable-IsMirror_example : IsMirror one_note
Reachable-IsMirror_example = Reachable-IsMirror one_note reached

parse_u64-decimal_example : parse_u64 (decimal 607) ≡ some 607
parse_u64-decimal_example = parse_u64-decimal 607 (omega arith)
