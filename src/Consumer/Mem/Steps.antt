-- ===== src/Consumer/Mem/Steps.antt =====
-- The mirror as a state machine: the calls that write, and the states that they reach.
use strk20_indexer.Prelude.{◌≡◌, max, ltb, Bool, Option, none, some, List, [], ◌∷◌, String, arith}
use strk20_indexer.Feed.Felt.{Felt}
use strk20_indexer.Feed.Codec.{BlockLine}
use strk20_indexer.Feed.Snapshot.{SnapSlot}
use strk20_indexer.Map.{meta_insert, get, insert}
use strk20_indexer.Map.Laws.{insert-Sorted, All-insert}
use strk20_indexer.Consumer.Mem.{
  Inner, NoteRow, Range, pair_lt, replace_range, install_slots, install_snapshot, reset_mirror,
}
use strk20_indexer.Consumer.Mem.Order.{pair_lt-IsOrder}
use strk20_indexer.Consumer.Mem.Mirror.{IsMirror, All-raise}
use strk20_indexer.Consumer.Mem.Replace.{replace_range-IsMirror}
use strk20_indexer.Consumer.Mem.Notes.{
  refreshed, upsert_note, set_note_spent, delete_note, delete_owner_notes,
}

-- `MemStore::new`
unfoldable pub new_store : Inner
new_store = record {
  meta = [];
  blocks = [];
  storage = [];
  storage_max_block = 0;
  events = [];
  notes = [];
}

pub data Step : Inner → Inner → Type 0 where
  meta_set :
      {g : Inner} (key value : String) → Step g (record g { meta = meta_insert key value g.meta })
  reset : {g : Inner} → Step g (reset_mirror g)
  installed :
      {g : Inner} (slots : List SnapSlot) (meta : List (String × String))
      → Step g (install_snapshot slots meta g)
  replaced :
      {g h : Inner} (range : Range) (blocks : List (BlockLine × Bool))
      (meta : List (String × String)) (bump : Bool)
      → replace_range range blocks meta bump g ≡ some h
      → Step g h
  upserted : {g : Inner} (n : NoteRow) → Step g (upsert_note n g)
  spent_set : {g : Inner} (note_id : Felt) (spent : Bool) → Step g (set_note_spent note_id spent g)
  note_deleted : {g : Inner} (note_id : Felt) → Step g (delete_note note_id g)
  owner_deleted : {g : Inner} (owner : Felt) → Step g (delete_owner_notes owner g).1

pub data Reachable : Inner → Type 0 where
  fresh : Reachable new_store
  after : {g h : Inner} → Reachable g → Step g h → Reachable h

install_slots-IsMirror :
    (xs : List SnapSlot) (g : Inner) → IsMirror g → IsMirror (install_slots xs g)
unfolding install_slots
install_slots-IsMirror [] g m = m
install_slots-IsMirror (s ∷ r) g m = install_slots-IsMirror r _ (record {
  sorted = insert-Sorted pair_lt pair_lt-IsOrder (s.k, s.w) s.v g.storage m.sorted;
  bounded =
      All-insert pair_lt pair_lt-IsOrder _ (s.k, s.w) s.v g.storage (omega arith)
        (All-raise g.storage_max_block (max g.storage_max_block s.w) g.storage (omega arith)
          m.bounded);
})

install_snapshot-IsMirror :
    (xs : List SnapSlot) (meta : List (String × String)) (g : Inner)
    → IsMirror g
    → IsMirror (install_snapshot xs meta g)
unfolding install_snapshot
install_snapshot-IsMirror xs meta g m =
    let n = install_slots-IsMirror xs g m in record { sorted = n.sorted; bounded = n.bounded }

-- the notes are apart from the rows
upsert_note-IsMirror : (n : NoteRow) (g : Inner) → IsMirror g → IsMirror (upsert_note n g)
unfolding upsert_note
upsert_note-IsMirror n g m = found (get ltb n.note_id g.notes)
  where
    found :
        (o : Option NoteRow)
        → IsMirror (elim o [
          | some existing ↦ record g { notes = insert ltb n.note_id (refreshed n existing) g.notes }
          | none ↦ record g { notes = insert ltb n.note_id n g.notes }
        ])
    found none = record { sorted = m.sorted; bounded = m.bounded }
    found (some existing) = record { sorted = m.sorted; bounded = m.bounded }

set_note_spent-IsMirror :
    (note_id : Felt) (spent : Bool) (g : Inner)
    → IsMirror g
    → IsMirror (set_note_spent note_id spent g)
unfolding set_note_spent
set_note_spent-IsMirror note_id spent g m = found (get ltb note_id g.notes)
  where
    found :
        (o : Option NoteRow)
        → IsMirror (elim o [
          | some n ↦ record g { notes = insert ltb note_id (record n { spent = spent }) g.notes }
          | none ↦ g
        ])
    found none = m
    found (some existing) = record { sorted = m.sorted; bounded = m.bounded }

pub Step-IsMirror : {g h : Inner} → Step g h → IsMirror g → IsMirror h
unfolding reset_mirror delete_note delete_owner_notes
Step-IsMirror (meta_set key value) m = record { sorted = m.sorted; bounded = m.bounded }
Step-IsMirror reset m = record { sorted = tt; bounded = tt }
Step-IsMirror (installed slots meta) m = install_snapshot-IsMirror slots meta _ m
Step-IsMirror (replaced range blocks meta bump q) m =
    replace_range-IsMirror range blocks meta bump _ _ m q
Step-IsMirror (upserted n) m = upsert_note-IsMirror n _ m
Step-IsMirror (spent_set note_id spent) m = set_note_spent-IsMirror note_id spent _ m
Step-IsMirror (note_deleted note_id) m = record { sorted = m.sorted; bounded = m.bounded }
Step-IsMirror (owner_deleted owner) m = record { sorted = m.sorted; bounded = m.bounded }

-- In every state that calls of the store reach from an empty one, the rows stand in the order of
-- their keys and none is above the recorded highest block.
pub Reachable-IsMirror : (g : Inner) → Reachable g → IsMirror g
unfolding new_store
Reachable-IsMirror _ fresh = record { sorted = tt; bounded = tt }
Reachable-IsMirror g (after r s) = Step-IsMirror s (Reachable-IsMirror _ r)
