-- ===== src/Consumer/Mem/Registry.antt =====
-- What the note registry keeps.
use strk20_indexer.Prelude.{
  ◌+◌, ◌≡◌, ◌≢◌, ◌⊎◌, refl, ap, inl, inr, not, Option, none, some, List, [], ◌∷◌, map, keep, length,
  ltb, ◌==◌, Bool-cases, arith,
}
use strk20_indexer.Feed.Felt.{Felt}
use strk20_indexer.Map.{insert, get}
use strk20_indexer.Map.Laws.{ltb-IsOrder, get-insert_self, get-insert_ne, key_cases}
use strk20_indexer.Consumer.Mem.{NoteRow, Inner, pair_lt}
use strk20_indexer.Consumer.Mem.Notes.{
  insert_note, sort_notes, notes_of, refreshed, upsert_note, delete_owner_notes,
}

-- An upsert stores the note under its id: a note that is there already keeps its own owner, token,
-- index, nullifier and spent mark and takes over the sender, the amount and the block; a note with
-- another id stays as it is.
pub upsert_note-get :
    (n : NoteRow) (g : Inner) (id : Felt)
    → ((id ≡ n.note_id)
        × (get ltb id (upsert_note n g).notes
            ≡ elim (get ltb id g.notes) [ none ↦ some n | some x ↦ some (refreshed n x) ]))
      ⊎ ((id ≢ n.note_id) × (get ltb id (upsert_note n g).notes ≡ get ltb id g.notes))
unfolding upsert_note
upsert_note-get n g id = elim (key_cases ltb ltb-IsOrder id n.note_id) [
  | inl e ↦ inl (e, rw e (same (get ltb n.note_id g.notes)))
  | inr e ↦ inr (e, other e (get ltb n.note_id g.notes))
]
  where
    same :
        (o : Option NoteRow)
        → get ltb n.note_id
            (elim o as (λ x. Inner) [
              | some existing ↦ record g {
                notes = insert ltb n.note_id (refreshed n existing) g.notes;
              }
              | none ↦ record g { notes = insert ltb n.note_id n g.notes }
            ]).notes
          ≡ elim o [ none ↦ some n | some x ↦ some (refreshed n x) ]
    same none = get-insert_self ltb ltb-IsOrder n.note_id n g.notes
    same (some x) = get-insert_self ltb ltb-IsOrder n.note_id (refreshed n x) g.notes

    other :
        id ≢ n.note_id
        → (o : Option NoteRow)
        → get ltb id
            (elim o as (λ x. Inner) [
              | some existing ↦ record g {
                notes = insert ltb n.note_id (refreshed n existing) g.notes;
              }
              | none ↦ record g { notes = insert ltb n.note_id n g.notes }
            ]).notes
          ≡ get ltb id g.notes
    other e none = get-insert_ne ltb ltb-IsOrder id n.note_id n g.notes e
    other e (some x) = get-insert_ne ltb ltb-IsOrder id n.note_id (refreshed n x) g.notes e

length-insert_note : (n : NoteRow) (r : List NoteRow) → length (insert_note n r) ≡ length r + 1
unfolding insert_note
length-insert_note n [] = refl
length-insert_note n (m ∷ r) = elim (Bool-cases (pair_lt (m.token, m.index) (n.token, n.index))) [
  | inl e ↦ rw e (omega (arith, length-insert_note n r))
  | inr e ↦ rw e (omega arith)
]

length-sort_notes : (r : List NoteRow) → length (sort_notes r) ≡ length r
unfolding sort_notes
length-sort_notes [] = refl
length-sort_notes (n ∷ r) = omega (arith, length-insert_note n (sort_notes r), length-sort_notes r)

owned : Felt → List (Felt × NoteRow) → List NoteRow
owned owner xs = keep (λ n. n.owner == owner) (map (λ e. e.1) xs)

split_owner :
    (owner : Felt) (xs : List (Felt × NoteRow))
    → length xs ≡ length (owned owner xs) + length (keep (λ e. not (e.1.owner == owner)) xs)
unfolding owned
split_owner owner [] = omega arith
split_owner owner (e ∷ r) = elim (Bool-cases (e.1.owner == owner)) [
  | inl x ↦ rw x (omega (arith, split_owner owner r))
  | inr x ↦ rw x (omega (arith, split_owner owner r))
]

none_left :
    (owner : Felt) (xs : List (Felt × NoteRow))
    → owned owner (keep (λ e. not (e.1.owner == owner)) xs) ≡ []
unfolding owned
none_left owner [] = refl
none_left owner (e ∷ r) = elim (Bool-cases (e.1.owner == owner)) [
  | inl x ↦ rw x (none_left owner r)
  | inr x ↦ rw (x, x) (none_left owner r)
]

-- Deleting an owner's notes leaves the owner none, and reports as many as the owner had.
pub delete_owner_notes-notes_of :
    (owner : Felt) (g : Inner)
    → (notes_of owner (delete_owner_notes owner g).1 ≡ [])
      × ((delete_owner_notes owner g).0 ≡ length (notes_of owner g))
unfolding notes_of delete_owner_notes sort_notes owned
delete_owner_notes-notes_of owner g = (
  ap sort_notes (none_left owner g.notes),
  omega (arith, split_owner owner g.notes, length-sort_notes (owned owner g.notes)),
)
