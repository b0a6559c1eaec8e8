-- ===== src/Feed/Trie/Loops.antt =====
-- The two loops of an update of the cached tree leave the tree of the new slots.
use strk20_indexer.Prelude.{
  ◌<◌, ◌≡◌, ◌≢◌, refl, sym, ◌∙◌, ap, true, false, inl, inr, Option, none, some, List, [], ◌∷◌, All,
  arith, ltb, ◌==◌, Bool-cases, Option-cases, ==_iff, ==_refl, ne→==_false,
}
use strk20_indexer.Map.{get}
use strk20_indexer.Map.Laws.{ltb-IsOrder, Sorted, get-hit, get-skip, get-above, key_cases}
use strk20_indexer.Feed.Felt.{Felt, Crypto}
use strk20_indexer.Feed.Trie.{Key, Node, set_slot, clear_slot, write_changed, drop_missing}
use strk20_indexer.Feed.Trie.Slots.{
  Slot, key_limit, or_zero, value_of, Stored, Stored-ext, assign, set_slot-Stored,
  clear_slot-Stored,
}

-- keys in range and values that are not zero
abbrev pub IsSlots : List Slot → Type 0
IsSlots m = All (λ e. (e.0 < key_limit) × (e.1 ≢ 0)) m

abbrev pub over : Option Felt → Felt → Felt
over none old = old
over (some v) old = v

-- `g` with the slots of `m` on top
abbrev overlay : List Slot → (Key → Felt) → Key → Felt
overlay m g k = over (get ltb k m) (g k)

absent : (e : Slot) (r : List Slot) → Sorted ltb (e ∷ r) → get ltb e.0 r ≡ none
absent e r s = elim (Option-cases (get ltb e.0 r)) [
  | inl n ↦ n
  | inr (v, q) ↦ absurd (ground (arith, get-above ltb ltb-IsOrder e.0 e.0 v r s.0 q))
]

-- one slot written, then the rest
overlay_step :
    (e : Slot) (r : List Slot) (g : Key → Felt) (k : Key)
    → Sorted ltb (e ∷ r)
    → overlay (e ∷ r) g k ≡ overlay r (assign e.0 e.1 g) k
overlay_step e r g k s = elim (key_cases ltb ltb-IsOrder e.0 k) [
  | inl q ↦ rw (get-hit ltb ltb-IsOrder k e r q, ← q, absent e r s, ==_refl e.0) refl
  | inr n ↦ rw (get-skip ltb ltb-IsOrder k e r n, ne→==_false e.0 k n) refl
]

-- the same where the slot is there already
overlay_same :
    (e : Slot) (r : List Slot) (g : Key → Felt) (k : Key)
    → Sorted ltb (e ∷ r)
    → g e.0 ≡ e.1
    → overlay (e ∷ r) g k ≡ overlay r g k
overlay_same e r g k s h = elim (key_cases ltb ltb-IsOrder e.0 k) [
  | inl q ↦ rw (get-hit ltb ltb-IsOrder k e r q, ← q, absent e r s) (sym h)
  | inr n ↦ rw (get-skip ltb ltb-IsOrder k e r n) refl
]

module _ (c : Crypto) (values : List Slot) where
  -- the cached values are those of the tree at the keys still to be written
  abbrev Fresh : List Slot → (Key → Felt) → Type 0
  Fresh es g = All (λ e. (old : Felt) → get ltb e.0 values ≡ some old → g e.0 ≡ old) es

  Fresh-assign :
      (e : Slot) (r : List Slot) (g : Key → Felt)
      → All (λ f. ltb e.0 f.0 ≡ true) r
      → Fresh r g
      → Fresh r (assign e.0 e.1 g)
  Fresh-assign e [] g a h = tt
  Fresh-assign e (f ∷ r) g a h = (
    λ old q. let n : (e.0 == f.0) ≡ false = ground (arith, a.0) in rw n (h.0 old q),
    Fresh-assign e r g a.1 h.1,
  )

  pub write_changed-Stored :
      (es : List Slot) (o : Option Node) (g : Key → Felt)
      → Sorted ltb es
      → IsSlots es
      → Fresh es g
      → Stored c o g
      → Stored c (write_changed c values es o) (overlay es g)
  unfolding write_changed get
  write_changed-Stored [] o g s i f h = h
  write_changed-Stored (e ∷ r) o g s i f h =
      let written =
        Stored-ext c _ _ (overlay (e ∷ r) g) (λ k l. overlay_step e r g k s)
          (write_changed-Stored r (set_slot c o e.0 e.1) (assign e.0 e.1 g) s.1 i.1
            (Fresh-assign e r g s.0 f.1) (set_slot-Stored c o e.0 e.1 g i.0.0 i.0.1 h)) in
      let kept = write_changed-Stored r o g s.1 i.1 f.1 h in
      elim (Option-cases (get ltb e.0 values)) [
        | inl q ↦ rw (write_changed, q) written
        | inr (old, q) ↦ elim (Bool-cases (old == e.1)) [
          | inl x ↦
              rw (write_changed, q, x)
                (Stored-ext c _ _ (overlay (e ∷ r) g)
                  (λ k l. overlay_same e r g k s (f.0 old q ∙ (==_iff old e.1).0 x)) kept)
          | inr x ↦ rw (write_changed, q, x) written
        ]
      ]

-- what a cached slot leaves, when the new slots are known
abbrev left_of : Option Felt → Option Felt → Felt → Felt
left_of none new old = old
left_of (some w) none old = 0
left_of (some w) (some v) old = old

module _ (c : Crypto) (next : List Slot) where
  -- `g` without the slots of `m` that are gone
  abbrev pruned : List Slot → (Key → Felt) → Key → Felt
  pruned m g k = left_of (get ltb k m) (get ltb k next) (g k)

  pruned_kept :
      (e : Slot) (r : List Slot) (g : Key → Felt) (k : Key) (v : Felt)
      → get ltb e.0 next ≡ some v
      → pruned (e ∷ r) g k ≡ pruned r g k
  pruned_kept e r g k v q = elim (key_cases ltb ltb-IsOrder e.0 k) [
    | inl x ↦ rw (get-hit ltb ltb-IsOrder k e r x, ← x, q) (kept (get ltb e.0 r) (g e.0))
    | inr n ↦ rw (get-skip ltb ltb-IsOrder k e r n) refl
  ]
    where
      kept : (o : Option Felt) (w : Felt) → w ≡ left_of o (some v) w
      kept none w = refl
      kept (some u) w = refl

  pruned_gone :
      (e : Slot) (r : List Slot) (g : Key → Felt) (k : Key)
      → get ltb e.0 next ≡ none
      → pruned (e ∷ r) g k ≡ pruned r (assign e.0 0 g) k
  pruned_gone e r g k q = elim (key_cases ltb ltb-IsOrder e.0 k) [
    | inl x ↦ rw (get-hit ltb ltb-IsOrder k e r x, ← x, q, ==_refl e.0) (gone (get ltb e.0 r))
    | inr n ↦ rw (get-skip ltb ltb-IsOrder k e r n, ne→==_false e.0 k n) refl
  ]
    where
      gone : (o : Option Felt) → 0 ≡ left_of o none 0
      gone none = refl
      gone (some u) = refl

  pub drop_missing-Stored :
      (es : List Slot) (o : Option Node) (g : Key → Felt)
      → IsSlots es
      → Stored c o g
      → Stored c (drop_missing c next es o) (pruned es g)
  unfolding drop_missing get
  drop_missing-Stored [] o g i h = h
  drop_missing-Stored (e ∷ r) o g i h = elim (Option-cases (get ltb e.0 next)) [
    | inl q ↦
        rw (drop_missing, q)
          (Stored-ext c _ _ (pruned (e ∷ r) g) (λ k l. pruned_gone e r g k q)
            (drop_missing-Stored r (clear_slot c o e.0) (assign e.0 0 g) i.1
              (clear_slot-Stored c o e.0 g i.0.0 h)))
    | inr (v, q) ↦
        rw (drop_missing, q)
          (Stored-ext c _ _ (pruned (e ∷ r) g) (λ k l. pruned_kept e r g k v q)
            (drop_missing-Stored r o g i.1 h))
  ]

  -- After both loops the tree holds the new slots.
  pub loops-Stored :
      (values : List Slot) (o : Option Node)
      → Sorted ltb next
      → IsSlots next
      → IsSlots values
      → Stored c o (value_of values)
      → Stored c (drop_missing c next values (write_changed c values next o)) (value_of next)
  loops-Stored values o s i j h =
      Stored-ext c _ _ (value_of next) (λ k l. settled (get ltb k next) (get ltb k values))
        (drop_missing-Stored values _ _ j
          (write_changed-Stored c values next o (value_of values) s i (fresh next) h))
    where
      settled : (new old : Option Felt) → or_zero new ≡ left_of old new (over new (or_zero old))
      settled none none = refl
      settled none (some w) = refl
      settled (some v) none = refl
      settled (some v) (some w) = refl

      fresh : (m : List Slot) → Fresh c values m (value_of values)
      fresh [] = tt
      fresh (e ∷ r) = (λ old q. ap or_zero q, fresh r)
