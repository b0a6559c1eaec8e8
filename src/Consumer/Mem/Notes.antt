-- ===== src/Consumer/Mem/Notes.antt =====
-- The note registry of crates/consumer/src/mem.rs.
use strk20_indexer.Prelude.{
  ℕ, ◌-◌, Bool, not, none, some, List, [], ◌∷◌, map, keep, length, ltb, ◌==◌, if◌then◌else◌,
}
use strk20_indexer.Feed.Felt.{Felt}
use strk20_indexer.Map.{insert, get}
use strk20_indexer.Consumer.Mem.{NoteRow, Inner, pair_lt}

-- a stable sort by token and index
unfoldable pub insert_note : NoteRow → List NoteRow → List NoteRow
insert_note n [] = n ∷ []
insert_note n (m ∷ r) =
    let rest = insert_note n r in
    if pair_lt (m.token, m.index) (n.token, n.index) then m ∷ rest else n ∷ m ∷ r

unfoldable pub sort_notes : List NoteRow → List NoteRow
unfolding insert_note
sort_notes [] = []
sort_notes (n ∷ r) = insert_note n (sort_notes r)

-- the method `notes`
unfoldable pub notes_of : Felt → Inner → List NoteRow
unfolding sort_notes
notes_of owner g = sort_notes (keep (λ n. n.owner == owner) (map (λ e. e.1) g.notes))

-- the fields that an upsert refreshes
unfoldable pub refreshed : NoteRow → NoteRow → NoteRow
refreshed n existing = record existing { sender = n.sender; amount = n.amount; block = n.block }

unfoldable pub upsert_note : NoteRow → Inner → Inner
unfolding refreshed
upsert_note n g = elim (get ltb n.note_id g.notes) [
  | some existing ↦ record g { notes = insert ltb n.note_id (refreshed n existing) g.notes }
  | none ↦ record g { notes = insert ltb n.note_id n g.notes }
]

unfoldable pub set_note_spent : Felt → Bool → Inner → Inner
set_note_spent note_id spent g = elim (get ltb note_id g.notes) [
  | some n ↦ record g { notes = insert ltb note_id (record n { spent = spent }) g.notes }
  | none ↦ g
]

unfoldable pub delete_note : Felt → Inner → Inner
delete_note note_id g = record g { notes = keep (λ e. not (e.0 == note_id)) g.notes }

unfoldable pub delete_owner_notes : Felt → Inner → ℕ × Inner
delete_owner_notes owner g =
    let left = keep (λ e. not (e.1.owner == owner)) g.notes in
    (length g.notes - length left, record g { notes = left })
