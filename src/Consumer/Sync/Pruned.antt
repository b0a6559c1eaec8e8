-- ===== src/Consumer/Sync/Pruned.antt =====
-- What pruning leaves in the registry.
use strk20_indexer.Prelude.{
  ℕ, suc, ◌+◌, ◌≡◌, refl, ◌∙◌, ap, ap₂, inl, inr, Bool, true, false, not, ◌&&◌, ◌||◌, List, [], ◌∷◌,
  map, keep, length, fun_ext, ◌==◌, Bool-cases, if◌then◌else◌, arith,
}
use strk20_indexer.Feed.Felt.{Felt}
use strk20_indexer.Consumer.Mem.{NoteRow, Inner, pair_lt, read_slot_as_of}
use strk20_indexer.Consumer.Mem.Notes.{insert_note, sort_notes, notes_of, delete_note}
use strk20_indexer.Consumer.Sync.{is_missing, prune_notes, prune_missing_notes}

one_more : (p l : ℕ) → p + 1 + l ≡ p + suc l
one_more p l = omega arith

from_zero : (a b : ℕ) → a ≡ b → 0 + a ≡ b
from_zero a b e = omega arith

module _ (slot : Felt → Felt) (as_of : ℕ) where
  -- a note of the list has the id and no slot
  is_dropped : Inner → List NoteRow → Felt → Bool
  is_dropped g [] id = false
  is_dropped g (n ∷ r) id = (is_missing slot as_of g n && id == n.note_id) || is_dropped g r id

  delete-missing :
      (id : Felt) (g : Inner) (n : NoteRow)
      → is_missing slot as_of (delete_note id g) n ≡ is_missing slot as_of g n
  unfolding is_missing delete_note read_slot_as_of
  delete-missing id g n = refl

  delete-dropped :
      (id : Felt) (g : Inner) (xs : List NoteRow) (x : Felt)
      → is_dropped (delete_note id g) xs x ≡ is_dropped g xs x
  unfolding is_dropped
  delete-dropped id g [] x = refl
  delete-dropped id g (n ∷ r) x = rw (delete-missing id g n, delete-dropped id g r x) refl

  -- the rows that pruning against `xs` leaves
  left : Inner → List NoteRow → List (Felt × NoteRow) → List (Felt × NoteRow)
  left g xs = keep (λ e. not (is_dropped g xs e.0))

  left-nil : (g : Inner) (rows : List (Felt × NoteRow)) → left g [] rows ≡ rows
  unfolding left is_dropped
  left-nil g [] = refl
  left-nil g (e ∷ r) = ap (λ x. e ∷ x) (left-nil g r)

  left-kept :
      (g : Inner) (n : NoteRow) (xs : List NoteRow) (rows : List (Felt × NoteRow))
      → is_missing slot as_of g n ≡ false
      → left g (n ∷ xs) rows ≡ left g xs rows
  unfolding left is_dropped
  left-kept g n xs [] m = refl
  left-kept g n xs (e ∷ r) m = rw (m, left-kept g n xs r m) refl

  left-dropped :
      (g : Inner) (n : NoteRow) (xs : List NoteRow) (rows : List (Felt × NoteRow))
      → is_missing slot as_of g n ≡ true
      → left (delete_note n.note_id g) xs (keep (λ e. not (e.0 == n.note_id)) rows)
        ≡ left g (n ∷ xs) rows
  unfolding left is_dropped
  left-dropped g n xs [] m = refl
  left-dropped g n xs (e ∷ r) m = elim (Bool-cases (e.0 == n.note_id)) [
    | inl x ↦ rw (m, x) (left-dropped g n xs r m)
    | inr x ↦
        rw (m, x, delete-dropped n.note_id g xs e.0)
          (ap (λ y. if not (is_dropped g xs e.0) then e ∷ y else y) (left-dropped g n xs r m))
  ]

  prune_notes-eq :
      (xs : List NoteRow) (pruned : ℕ) (g : Inner)
      → prune_notes slot as_of xs pruned g ≡ (
        pruned + length (keep (is_missing slot as_of g) xs),
        record g { notes = left g xs g.notes },
      )
  unfolding prune_notes is_missing delete_note read_slot_as_of
  prune_notes-eq [] pruned g = rw (left-nil g g.notes) (ap (λ m. (m, g)) (omega arith))
  prune_notes-eq (n ∷ r) pruned g = elim (Bool-cases (is_missing slot as_of g n)) [
    | inl x ↦
        rw (prune_notes, x, prune_notes-eq r (pruned + 1) (delete_note n.note_id g))
          (ap₂ (λ m ns. (m, record g { notes = ns }))
            (one_more pruned (length (keep (is_missing slot as_of g) r)))
            (left-dropped g n r g.notes x))
    | inr x ↦ rw (prune_notes, x, prune_notes-eq r pruned g, left-kept g n r g.notes x) refl
  ]

  -- the order of the notes does not matter
  or_swap : (a b c : Bool) → (a || (b || c)) ≡ (b || (a || c))
  or_swap true true c = refl
  or_swap true false c = refl
  or_swap false b c = refl

  insert-dropped :
      (g : Inner) (n : NoteRow) (r : List NoteRow) (id : Felt)
      → is_dropped g (insert_note n r) id ≡ is_dropped g (n ∷ r) id
  unfolding insert_note is_dropped
  insert-dropped g n [] id = refl
  insert-dropped g n (m ∷ r) id =
      elim (Bool-cases (pair_lt (m.token, m.index) (n.token, n.index))) [
        | inl x ↦
            rw (x, insert-dropped g n r id)
              (or_swap (is_missing slot as_of g m && id == m.note_id)
                (is_missing slot as_of g n && id == n.note_id) (is_dropped g r id))
        | inr x ↦ rw x refl
      ]

  sort-dropped :
      (g : Inner) (xs : List NoteRow) (id : Felt)
      → is_dropped g (sort_notes xs) id ≡ is_dropped g xs id
  unfolding sort_notes is_dropped
  sort-dropped g [] id = refl
  sort-dropped g (n ∷ r) id =
      insert-dropped g n (sort_notes r) id
      ∙ ap (λ b. (is_missing slot as_of g n && id == n.note_id) || b) (sort-dropped g r id)

  insert-length :
      (p : NoteRow → Bool) (n : NoteRow) (r : List NoteRow)
      → length (keep p (insert_note n r)) ≡ length (keep p (n ∷ r))
  unfolding insert_note
  insert-length p n [] = refl
  insert-length p n (m ∷ r) = ground (arith, insert-length p n r)

  sort-length :
      (p : NoteRow → Bool) (xs : List NoteRow)
      → length (keep p (sort_notes xs)) ≡ length (keep p xs)
  unfolding sort_notes
  sort-length p [] = refl
  sort-length p (n ∷ r) = ground (arith, insert-length p n (sort_notes r), sort-length p r)

  -- the owner has the note, and its slot is empty
  abbrev pub is_gone : Inner → Felt → NoteRow → Bool
  is_gone g owner n = n.owner == owner && (read_slot_as_of g (slot n.note_id) as_of).0 == 0

  -- a note of the rows that is gone has the id
  abbrev pub is_named : Inner → Felt → List (Felt × NoteRow) → Felt → Bool
  is_named g owner [] id = false
  is_named g owner (e ∷ r) id = (is_gone g owner e.1 && id == e.1.note_id) || is_named g owner r id

  abbrev owned : Felt → List (Felt × NoteRow) → List NoteRow
  owned owner rows = keep (λ n. n.owner == owner) (map (λ e. e.1) rows)

  owned-dropped :
      (g : Inner) (owner : Felt) (rows : List (Felt × NoteRow)) (id : Felt)
      → is_dropped g (owned owner rows) id ≡ is_named g owner rows id
  unfolding is_dropped is_missing
  owned-dropped g owner [] id = refl
  owned-dropped g owner (e ∷ r) id = elim (Bool-cases (e.1.owner == owner)) [
    | inl x ↦ rw (x, owned-dropped g owner r id) refl
    | inr x ↦ rw x (owned-dropped g owner r id)
  ]

  owned-length :
      (g : Inner) (owner : Felt) (rows : List (Felt × NoteRow))
      → length (keep (is_missing slot as_of g) (owned owner rows))
        ≡ length (keep (λ e. is_gone g owner e.1) rows)
  unfolding is_missing
  owned-length g owner [] = refl
  owned-length g owner (e ∷ r) = elim (Bool-cases (e.1.owner == owner)) [
    | inl x ↦ elim (Bool-cases ((read_slot_as_of g (slot e.1.note_id) as_of).0 == 0)) [
      | inl y ↦ rw (x, y) (ap suc (owned-length g owner r))
      | inr y ↦ rw (x, y) (owned-length g owner r)
    ]
    | inr x ↦ rw x (owned-length g owner r)
  ]

  -- Pruning deletes the rows under the ids of the notes that the owner has and whose slot in the mirror
  -- reads as 0 as of the block. It keeps the other rows, changes nothing else, and reports the number of
  -- those notes.
  pub prune_missing_notes-eq :
      (owner : Felt) (g : Inner)
      → prune_missing_notes slot as_of owner g ≡ (
        length (keep (λ e. is_gone g owner e.1) g.notes),
        record g { notes = keep (λ e. not (is_named g owner g.notes e.0)) g.notes },
      )
  unfolding prune_missing_notes left notes_of
  prune_missing_notes-eq owner g =
      prune_notes-eq (notes_of owner g) 0 g
      ∙ ap₂ (λ m f. (m, record g { notes = keep (λ e. not (f e.0)) g.notes }))
          (from_zero _ _ (
            sort-length (is_missing slot as_of g) (owned owner g.notes)
            ∙ owned-length g owner g.notes))
          (fun_ext
            (λ id. sort-dropped g (owned owner g.notes) id ∙ owned-dropped g owner g.notes id))
