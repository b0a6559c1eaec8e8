-- ===== src/Consumer/Mem/Reads.antt =====
-- What `read_slot_as_of` returns.
use strk20_indexer.Prelude.{
  ℕ, ◌≤◌, ◌<◌, ◌≡◌, ◌≢◌, ◌⊎◌, refl, sym, ◌∙◌, ap, ap₂, subst, inl, inr, Bool, true, false, not,
  ◌&&◌, Option, none, some, List, [], ◌∷◌, keep, All, Bool-cases, arith,
}
use strk20_indexer.Feed.Felt.{Felt}
use strk20_indexer.Map.{get, last}
use strk20_indexer.Map.Laws.{Sorted, get-skip, get-hit, get-above}
use strk20_indexer.Consumer.Mem.{Storage, Inner, pair_lt, latest, read_slot_as_of}
use strk20_indexer.Consumer.Mem.Order.{pair_lt-IsOrder}

-- the value that block `b` wrote to the slot
abbrev pub row : Storage → Felt → ℕ → Option Felt
row st slot b = get pair_lt (slot, b) st

-- `r` is the newest write to the slot at or below the bound, or there is none
abbrev pub IsLatest : (ℕ → Option Felt) → ℕ → Felt × ℕ → Type 0
IsLatest h bound r =
    ((h r.1 ≡ some r.0) × (r.1 ≤ bound) × ((b : ℕ) → r.1 < b → b ≤ bound → h b ≡ none))
    ⊎ ((r ≡ (0, 0)) × ((b : ℕ) → b ≤ bound → h b ≡ none))

in_range : Felt → ℕ → (Felt × ℕ) × Felt → Bool
unfolding pair_lt
in_range slot bound e = not (pair_lt e.0 (slot, 0)) && not (pair_lt (slot, bound) e.0)

in_range_inv :
    (slot bound : ℕ) (e : (Felt × ℕ) × Felt)
    → in_range slot bound e ≡ true
    → (e.0 ≡ (slot, e.0.1)) × (e.0.1 ≤ bound)
unfolding in_range pair_lt
in_range_inv slot bound ((s, b), v) h =
    (ap₂ (λ (x y : ℕ). (x, y)) {x = s} {y = slot} {u = b} {v = b} (ground arith) refl, ground arith)

in_range_intro :
    (slot bound b : ℕ) (e : (Felt × ℕ) × Felt)
    → b ≤ bound
    → e.0 ≡ (slot, b)
    → in_range slot bound e ≡ true
unfolding in_range pair_lt
in_range_intro slot bound b ((s, b'), v) l q =
    let es : s ≡ slot = ap (λ (x : ℕ × ℕ). x.0) q in
    let eb : b' ≡ b = ap (λ (x : ℕ × ℕ). x.1) q in ground arith

-- the newest entry in the range of a slot
Newest : Storage → Felt → ℕ → Option ((Felt × ℕ) × Felt) → Type 0
Newest st slot bound none = (b : ℕ) → b ≤ bound → row st slot b ≡ none
Newest st slot bound (some e) =
    (e.0 ≡ (slot, e.0.1))
    × (row st slot e.0.1 ≡ some e.1)
    × (e.0.1 ≤ bound)
    × ((b : ℕ) → e.0.1 < b → b ≤ bound → row st slot b ≡ none)

block_apart : (slot b b' : ℕ) → b < b' → ◌≢◌ {A = ℕ × ℕ} (slot, b) (slot, b')
block_apart slot b b' l q = let e : b ≡ b' = ap (λ (x : ℕ × ℕ). x.1) q in omega (arith, e, l)

later_block : (slot b b' : ℕ) → pair_lt (slot, b) (slot, b') ≡ true → b < b'
unfolding pair_lt
later_block slot b b' h = ground arith

last-some : {A : Type 0} (x : A) (xs : List A) → (y : A) × (last (x ∷ xs) ≡ some y)
unfolding last
last-some x [] = (x, refl)
last-some x (y ∷ r) = last-some y r

module _ (slot bound : ℕ) where
  -- an entry of the range in front
  in_front :
      (e : (Felt × ℕ) × Felt) (r : Storage) (y : (Felt × ℕ) × Felt)
      → e.0 ≡ (slot, e.0.1)
      → All (λ (f : (Felt × ℕ) × Felt). pair_lt e.0 f.0 ≡ true) r
      → Newest r slot bound (some y)
      → Newest (e ∷ r) slot bound (some y)
  unfolding Newest
  in_front e r y k a (q, g, l, n) =
      let before : e.0.1 < y.0.1 = later_block slot _ _ (
        subst (λ (z : ℕ × ℕ). pair_lt z (slot, y.0.1) ≡ true) k
          (get-above pair_lt pair_lt-IsOrder e.0 (slot, y.0.1) y.1 r a g)) in
      (
        q,
        get-skip pair_lt pair_lt-IsOrder _ e r (λ z. block_apart slot _ _ before (sym k ∙ z)) ∙ g,
        l,
        λ b lt le.
            get-skip pair_lt pair_lt-IsOrder _ e r
              (λ z. block_apart slot e.0.1 b (omega (arith, before, lt)) (sym k ∙ z))
            ∙ n b lt le,
      )

  extend :
      (e : (Felt × ℕ) × Felt) (r ks : Storage)
      → (e.0 ≡ (slot, e.0.1)) × (e.0.1 ≤ bound)
      → All (λ (f : (Felt × ℕ) × Felt). pair_lt e.0 f.0 ≡ true) r
      → Newest r slot bound (last ks)
      → Newest (e ∷ r) slot bound (last (e ∷ ks))
  unfolding Newest last
  extend e r [] (k, l) a n = (
    k,
    get-hit pair_lt pair_lt-IsOrder _ e r k,
    l,
    λ b lt le.
        get-skip pair_lt pair_lt-IsOrder _ e r (λ z. block_apart slot e.0.1 b lt (sym k ∙ z))
        ∙ n b le,
  )
  extend e r (x ∷ ks) (k, l) a n =
      let (y, q) = last-some x ks in
      subst (Newest (e ∷ r) slot bound) (sym q)
        (in_front e r y k a (subst (Newest r slot bound) q n))

  -- an entry outside the range in front
  pass :
      (e : (Felt × ℕ) × Felt) (r : Storage) (o : Option ((Felt × ℕ) × Felt))
      → in_range slot bound e ≡ false
      → Newest r slot bound o
      → Newest (e ∷ r) slot bound o
  unfolding Newest
  pass e r none x n = λ b le.
      get-skip pair_lt pair_lt-IsOrder _ e r (λ z. cc (in_range_intro slot bound b e le z)) ∙ n b le
  pass e r (some y) x (q, g, l, n) = (
    q,
    get-skip pair_lt pair_lt-IsOrder _ e r (λ z. cc (in_range_intro slot bound _ e l z)) ∙ g,
    l,
    λ b lt le.
        get-skip pair_lt pair_lt-IsOrder _ e r (λ z. cc (in_range_intro slot bound b e le z))
        ∙ n b lt le,
  )

  nothing : Newest [] slot bound (last [])
  unfolding Newest last get
  nothing = λ b le. refl

  last-Newest :
      (st : Storage)
      → Sorted pair_lt st
      → Newest st slot bound (last (keep (in_range slot bound) st))
  last-Newest [] s = nothing
  last-Newest (e ∷ r) s = elim (Bool-cases (in_range slot bound e)) [
    | inl x ↦ rw x (extend e r _ (in_range_inv slot bound e x) s.0 (last-Newest r s.1))
    | inr x ↦ rw x (pass e r _ x (last-Newest r s.1))
  ]

  latest-IsLatest :
      (st : Storage) (o : Option ((Felt × ℕ) × Felt))
      → Newest st slot bound o
      → IsLatest (row st slot) bound (latest o)
  unfolding Newest latest
  latest-IsLatest st none n = inr (refl, n)
  latest-IsLatest st (some ((s, b), v)) (q, g, l, n) = inl (g, l, n)

-- Where the rows stand in the order of their keys, a read as of a block gives the newest write to
-- the slot at or below the block, with the block of the write, or zero at block zero if there is
-- no such write.
pub read_slot_as_of-IsLatest :
    (g : Inner) (slot : Felt) (bound : ℕ)
    → Sorted pair_lt g.storage
    → IsLatest (row g.storage slot) bound (read_slot_as_of g slot bound)
unfolding read_slot_as_of in_range
read_slot_as_of-IsLatest g slot bound s =
    latest-IsLatest slot bound g.storage _ (last-Newest slot bound g.storage s)

-- the newest write is determined by the writes up to the bound
pub IsLatest-unique :
    (h k : ℕ → Option Felt) (bound : ℕ) (r s : Felt × ℕ)
    → ((b : ℕ) → b ≤ bound → h b ≡ k b)
    → IsLatest h bound r
    → IsLatest k bound s
    → r ≡ s
IsLatest-unique h k bound r s same (inl (p, l, n)) (inl (q, m, o)) = elim (order_cases r.1 s.1) [
  | inl lt ↦ absurd (cc (n s.1 lt m, same s.1 m, q))
  | inr (inl gt) ↦ absurd (cc (o r.1 gt l, same r.1 l, p))
  | inr (inr e) ↦
      ap₂ (λ (x y : ℕ). (x, y)) {x = r.0} {y = s.0} {u = r.1} {v = s.1}
        (some_inj (sym p ∙ same r.1 l ∙ ap k e ∙ q)) e
]
  where
    order_cases : (a b : ℕ) → (a < b) ⊎ ((b < a) ⊎ (a ≡ b))
    order_cases a b = ground arith

    some_inj : {x y : Felt} → some x ≡ some y → x ≡ y
    some_inj q = cc
IsLatest-unique h k bound r s same (inl (p, l, n)) (inr (e, o)) =
    absurd (cc (p, same r.1 l, o r.1 l))
IsLatest-unique h k bound r s same (inr (e, o)) (inl (q, m, n)) =
    absurd (cc (q, same s.1 m, o s.1 m))
IsLatest-unique h k bound r s same (inr (e, o)) (inr (f, u)) = e ∙ sym f
