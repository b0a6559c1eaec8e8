-- ===== src/Consumer/Mem/Mirror.antt =====
-- The invariant of the rows: their order, and the recorded highest block above them.
use strk20_indexer.Prelude.{
  ℕ, ◌≤◌, ◌≡◌, max, refl, sym, subst, inl, inr, Bool, true, false, List, [], ◌∷◌, All, String,
  Bool-cases, if◌then◌else◌, arith, leb,
}
use strk20_indexer.Feed.Felt.{Felt}
use strk20_indexer.Feed.Codec.{BlockLine}
use strk20_indexer.Map.Laws.{Sorted, insert-Sorted, keep-Sorted, All-keep, All-insert}
use strk20_indexer.Consumer.Mem.{
  Storage, Inner, Range, pair_lt, cleared, insert_diffs, apply_block_line, apply_blocks, refill,
  bump, is_nil,
}
use strk20_indexer.Consumer.Mem.Order.{pair_lt-IsOrder}

-- the rows are in order, and none is above the recorded highest block
pub record IsMirror (g : Inner) : Type 0 where
  pub sorted : Sorted pair_lt g.storage
  pub bounded : All (λ (e : (Felt × ℕ) × Felt). e.0.1 ≤ g.storage_max_block) g.storage

-- the keys that a block's diffs add
insert_diffs-IsMirror :
    (n top : ℕ) (ds : List (Felt × Felt)) (st : Storage)
    → n ≤ top
    → Sorted pair_lt st × All (λ (e : (Felt × ℕ) × Felt). e.0.1 ≤ top) st
    → Sorted pair_lt (insert_diffs n ds st)
      × All (λ (e : (Felt × ℕ) × Felt). e.0.1 ≤ top) (insert_diffs n ds st)
unfolding insert_diffs
insert_diffs-IsMirror n top [] st l h = h
insert_diffs-IsMirror n top (d ∷ r) st l h = insert_diffs-IsMirror n top r _ l (
  insert-Sorted pair_lt pair_lt-IsOrder (d.0, n) d.1 st h.0,
  All-insert pair_lt pair_lt-IsOrder _ (d.0, n) d.1 st l h.1,
)

pub All-raise :
    (a b : ℕ) (st : Storage)
    → a ≤ b
    → All (λ (e : (Felt × ℕ) × Felt). e.0.1 ≤ a) st
    → All (λ (e : (Felt × ℕ) × Felt). e.0.1 ≤ b) st
All-raise a b [] l h = tt
All-raise a b (e ∷ r) l h = (omega (arith, l, h.0), All-raise a b r l h.1)

filled :
    (n top : ℕ) (ds : List (Felt × Felt)) (st : Storage)
    → Sorted pair_lt st × All (λ (e : (Felt × ℕ) × Felt). e.0.1 ≤ top) st
    → Sorted pair_lt (insert_diffs n ds st)
      × All
          (λ (e : (Felt × ℕ) × Felt). e.0.1 ≤ (if is_nil ds then top else max top n))
          (insert_diffs n ds st)
unfolding is_nil insert_diffs
filled n top [] st h = h
filled n top (d ∷ r) st h =
    insert_diffs-IsMirror n (max top n) (d ∷ r) st (omega arith)
      (h.0, All-raise top (max top n) st (omega arith) h.1)

apply_block_line-IsMirror :
    (b : BlockLine) (f : Bool) (g : Inner) → IsMirror g → IsMirror (apply_block_line b f g)
unfolding apply_block_line
apply_block_line-IsMirror b f g m =
    let (s, a) = filled b.number g.storage_max_block b.diffs g.storage (m.sorted, m.bounded) in
    record { sorted = s; bounded = a }

apply_blocks-IsMirror :
    (bs : List (BlockLine × Bool)) (g : Inner) → IsMirror g → IsMirror (apply_blocks bs g)
unfolding apply_blocks
apply_blocks-IsMirror [] g m = m
apply_blocks-IsMirror (x ∷ r) g m =
    apply_blocks-IsMirror r _ (apply_block_line-IsMirror x.0 x.1 g m)

-- metadata does not touch the rows
pub refill_storage :
    (bs : List (BlockLine × Bool)) (meta : List (String × String)) (f : Bool) (g : Inner)
    → ((refill bs meta f g).storage ≡ (apply_blocks bs g).storage)
      × ((refill bs meta f g).storage_max_block ≡ (apply_blocks bs g).storage_max_block)
unfolding refill bump
refill_storage bs meta true g = (refl, refl)
refill_storage bs meta false g = (refl, refl)

pub refill-IsMirror :
    (bs : List (BlockLine × Bool)) (meta : List (String × String)) (f : Bool) (g : Inner)
    → IsMirror g
    → IsMirror (refill bs meta f g)
refill-IsMirror bs meta f g m =
    let (p, q) = refill_storage bs meta f g in
    let n = apply_blocks-IsMirror bs g m in
    record { sorted = subst (Sorted pair_lt) (sym p) n.sorted; bounded = rw (p, q) n.bounded }

pub cleared-IsMirror :
    (range : Range) (lo hi : ℕ) (g : Inner) → IsMirror g → IsMirror (cleared range lo hi g)
unfolding cleared
cleared-IsMirror range lo hi g m = elim (Bool-cases (leb lo g.storage_max_block)) [
  | inl e ↦ record {
    sorted = rw e (keep-Sorted pair_lt pair_lt-IsOrder _ g.storage m.sorted);
    bounded = rw e (All-keep pair_lt pair_lt-IsOrder _ _ g.storage m.bounded);
  }
  | inr e ↦ record { sorted = rw e m.sorted; bounded = rw e m.bounded }
]
