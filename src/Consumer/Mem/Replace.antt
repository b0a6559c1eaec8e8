-- ===== src/Consumer/Mem/Replace.antt =====
-- What `replace_range` does to the rows of the mirror.
use strk20_indexer.Prelude.{
  ℕ, ◌≤◌, ◌<◌, ◌≡◌, ◌≢◌, refl, sym, ◌∙◌, ap, subst, inl, inr, Bool, true, false, not, Option, none,
  some, List, [], ◌∷◌, All, String, Bool-cases, if◌then◌else◌, arith, leb, ne→==_false,
}
use strk20_indexer.Feed.Felt.{Felt}
use strk20_indexer.Feed.Codec.{BlockLine}
use strk20_indexer.Map.{get}
use strk20_indexer.Map.Laws.{get-skip, get-keep}
use strk20_indexer.Consumer.Mem.{
  Storage, Inner, Range, inclusive, above, contains, bounds, pair_lt, cleared, clear_range, refill,
  replace_range, read_slot_as_of,
}
use strk20_indexer.Consumer.Mem.Order.{pair_lt-IsOrder}
use strk20_indexer.Consumer.Mem.Reads.{row, read_slot_as_of-IsLatest, IsLatest-unique}
use strk20_indexer.Consumer.Mem.Rows.{or_else, written, row-apply_blocks}
use strk20_indexer.Consumer.Mem.Mirror.{IsMirror, refill_storage, refill-IsMirror, cleared-IsMirror}

clear_range-eq-some :
    (range : Range) (g h : Inner)
    → clear_range range g ≡ some h
    → cleared range (bounds range).0 (bounds range).1 g ≡ h
unfolding clear_range
clear_range-eq-some range g h q = elim (Bool-cases (leb (bounds range).0 (bounds range).1)) [
  | inl e ↦ cc (rw e at q)
  | inr e ↦ absurd (cc (rw e at q))
]

pub replace_range-eq-some :
    (range : Range) (bs : List (BlockLine × Bool)) (meta : List (String × String)) (f : Bool)
    (g g' : Inner)
    → replace_range range bs meta f g ≡ some g'
    → refill bs meta f (cleared range (bounds range).0 (bounds range).1 g) ≡ g'
unfolding replace_range
replace_range-eq-some range bs meta f g g' q = of (clear_range range g) refl q
  where
    of :
        (o : Option Inner)
        → clear_range range g ≡ o
        → elim o [ none ↦ none | some h ↦ some (refill bs meta f h) ] ≡ some g'
        → refill bs meta f (cleared range (bounds range).0 (bounds range).1 g) ≡ g'
    of none e p = absurd (cc)
    of (some h) e p = ap (refill bs meta f) (clear_range-eq-some range g h e) ∙ (cc)

row_bounded :
    (top : ℕ) (st : Storage) (slot b : ℕ)
    → All (λ (e : (Felt × ℕ) × Felt). e.0.1 ≤ top) st
    → top < b
    → row st slot b ≡ none
unfolding get
row_bounded top [] slot b a l = refl
row_bounded top (e ∷ r) slot b a l =
    get-skip pair_lt pair_lt-IsOrder (slot, b) e r apart ∙ row_bounded top r slot b a.1 l
  where
    apart : e.0 ≢ (slot, b)
    apart q = let eb : e.0.1 ≡ b = ap (λ (x : ℕ × ℕ). x.1) q in omega (arith, eb, l, a.0)

unless : (x : Bool) (o : Option Felt) → (if not x then o else none) ≡ (if x then none else o)
unless true o = refl
unless false o = refl

contains-above : (range : Range) (b : ℕ) → contains range b ≡ true → (bounds range).0 ≤ b
unfolding contains bounds
contains-above (inclusive from to) b h = ground arith
contains-above (above floor) b h = ground arith

-- the skip of the scan is sound: a row of the range exists only if the scan is made
row-cleared :
    (range : Range) (hi : ℕ) (g : Inner) (slot b : ℕ)
    → IsMirror g
    → row (cleared range (bounds range).0 hi g).storage slot b
      ≡ (if contains range b then none else row g.storage slot b)
unfolding cleared
row-cleared range hi g slot b m = elim (Bool-cases (leb (bounds range).0 g.storage_max_block)) [
  | inl e ↦ rw e (
      get-keep pair_lt pair_lt-IsOrder (λ k. not (contains range k.1)) (slot, b) g.storage
      ∙ unless (contains range b) (row g.storage slot b))
  | inr e ↦ elim (Bool-cases (contains range b)) [
    | inl x ↦
        let above : (bounds range).0 ≤ b = contains-above range b x in
        rw (e, x) (row_bounded g.storage_max_block g.storage slot b m.bounded (ground arith))
    | inr x ↦ rw (e, x) refl
  ]
]

-- In a mirror whose rows are in order and at or below the recorded highest block, a replacement of
-- a range that succeeds writes what its blocks give, clears the rest of the range and leaves every
-- other row as it is, whether or not the scan of the rows was skipped.
pub replace_range-row :
    (range : Range) (bs : List (BlockLine × Bool)) (meta : List (String × String)) (f : Bool)
    (g g' : Inner) (slot b : ℕ)
    → IsMirror g
    → replace_range range bs meta f g ≡ some g'
    → row g'.storage slot b
      ≡ or_else (written bs slot b) (if contains range b then none else row g.storage slot b)
replace_range-row range bs meta f g g' slot b m q =
    let h = cleared range (bounds range).0 (bounds range).1 g in
    ap (λ (x : Inner). row x.storage slot b) (sym (replace_range-eq-some range bs meta f g g' q))
    ∙ ap (λ (x : Storage). row x slot b) (refill_storage bs meta f h).0
    ∙ row-apply_blocks bs h slot b
    ∙ ap (or_else (written bs slot b)) (row-cleared range (bounds range).1 g slot b m)

pub replace_range-IsMirror :
    (range : Range) (bs : List (BlockLine × Bool)) (meta : List (String × String)) (f : Bool)
    (g g' : Inner)
    → IsMirror g
    → replace_range range bs meta f g ≡ some g'
    → IsMirror g'
replace_range-IsMirror range bs meta f g g' m q =
    subst IsMirror (replace_range-eq-some range bs meta f g g' q)
      (refill-IsMirror bs meta f _ (cleared-IsMirror range (bounds range).0 (bounds range).1 g m))

-- no block below the range
abbrev pub NoneBelow : ℕ → List (BlockLine × Bool) → Type 0
NoneBelow lo = All (λ (x : BlockLine × Bool). lo ≤ x.0.number)

written_below :
    (lo : ℕ) (bs : List (BlockLine × Bool)) (slot b : ℕ)
    → NoneBelow lo bs
    → b < lo
    → written bs slot b ≡ none
unfolding written
written_below lo [] slot b n l = refl
written_below lo (x ∷ r) slot b n l =
    rw (written_below lo r slot b n.1 l, ne→==_false x.0.number b (omega (arith, n.0, l))) refl

contains-below : (range : Range) (b : ℕ) → b < (bounds range).0 → contains range b ≡ false
contains-below range b l = elim (Bool-cases (contains range b)) [
  | inr e ↦ e
  | inl e ↦ absurd (omega (arith, contains-above range b e, l))
]

-- A replacement that succeeds, on a mirror whose rows are in order and at or below the recorded
-- highest block, with no block below the start of the range, does not change what is read as of a
-- block below that start.
pub replace_range_below :
    (range : Range) (bs : List (BlockLine × Bool)) (meta : List (String × String)) (f : Bool)
    (g g' : Inner) (slot bound : ℕ)
    → IsMirror g
    → NoneBelow (bounds range).0 bs
    → bound < (bounds range).0
    → replace_range range bs meta f g ≡ some g'
    → read_slot_as_of g' slot bound ≡ read_slot_as_of g slot bound
replace_range_below range bs meta f g g' slot bound m n l q =
    IsLatest-unique (row g'.storage slot) (row g.storage slot) bound _ _ same
      (read_slot_as_of-IsLatest g' slot bound
        (replace_range-IsMirror range bs meta f g g' m q).sorted)
      (read_slot_as_of-IsLatest g slot bound m.sorted)
  where
    same : (b : ℕ) → b ≤ bound → row g'.storage slot b ≡ row g.storage slot b
    same b le =
        let below : b < (bounds range).0 = omega (arith, le, l) in
        replace_range-row range bs meta f g g' slot b m q
        ∙ rw (written_below (bounds range).0 bs slot b n below, contains-below range b below) refl
