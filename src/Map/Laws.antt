-- ===== src/Map/Laws.antt =====
-- Lookups after the operations of a map, and the order of its keys.
use strk20_indexer.Prelude.{
  ◌≡◌, ◌≢◌, ◌⊎◌, refl, sym, ◌∙◌, ap, subst, inl, inr, Bool, true, false, none, some, List, [], ◌∷◌,
  keep, All, ltb, arith, Bool-cases, if◌then◌else◌,
}
use strk20_indexer.Map.{insert, get}

-- a strict total order
pub record IsOrder {K : Type 0} (lt : K → K → Bool) : Type 0 where
  pub irreflexive : (a : K) → lt a a ≡ false
  pub transitive : (a b c : K) → lt a b ≡ true → lt b c ≡ true → lt a c ≡ true
  pub connected : (a b : K) → lt a b ≡ false → lt b a ≡ false → a ≡ b

-- the order of numbers
pub ltb-IsOrder : IsOrder ltb
ltb-IsOrder = record {
  irreflexive = λ a. ground arith;
  transitive = λ a b c p q. ground arith;
  connected = λ a b p q. ground arith;
}

module _ {K V : Type 0} (lt : K → K → Bool) where
  -- the keys ascend
  abbrev pub Sorted : List (K × V) → Type 0
  Sorted [] = Unit
  Sorted (e ∷ r) = All (λ (f : K × V). lt e.0 f.0 ≡ true) r × Sorted r

module _ {K : Type 0} (lt : K → K → Bool) (o : IsOrder lt) where
  pub key_cases : (a b : K) → (a ≡ b) ⊎ (a ≢ b)
  key_cases a b = elim (Bool-cases (lt a b)) [
    | inl p ↦ inr (λ e. cc (subst (λ x. lt a x ≡ true) (sym e) p, o.irreflexive a))
    | inr p ↦ elim (Bool-cases (lt b a)) [
      | inl q ↦ inr (λ e. cc (subst (λ x. lt b x ≡ true) e q, o.irreflexive b))
      | inr q ↦ inl (o.connected a b p q)
    ]
  ]

module _ {K V : Type 0} (lt : K → K → Bool) (o : IsOrder lt) where
  pub get-insert_self : (k : K) (v : V) (m : List (K × V)) → get lt k (insert lt k v m) ≡ some v
  unfolding get insert
  get-insert_self k v [] = rw (o.irreflexive k) refl
  get-insert_self k v (e ∷ r) = elim (Bool-cases (lt e.0 k)) [
    | inl p ↦ rw (p, p) (get-insert_self k v r)
    | inr p ↦ elim (Bool-cases (lt k e.0)) [
      | inl q ↦ rw (p, q, o.irreflexive k) refl
      | inr q ↦ rw (p, q, o.irreflexive k) refl
    ]
  ]

  -- an entry with another key is passed over
  pub get-skip : (k : K) (e : K × V) (r : List (K × V)) → e.0 ≢ k → get lt k (e ∷ r) ≡ get lt k r
  unfolding get
  get-skip k e r n = elim (Bool-cases (lt e.0 k)) [
    | inl p ↦ rw p refl
    | inr p ↦ elim (Bool-cases (lt k e.0)) [
      | inl q ↦ rw (p, q) refl
      | inr q ↦ absurd (n (o.connected e.0 k p q))
    ]
  ]

  pub get-hit : (k : K) (e : K × V) (r : List (K × V)) → e.0 ≡ k → get lt k (e ∷ r) ≡ some e.1
  unfolding get
  get-hit k e r q = rw (q, o.irreflexive k) refl

  pub get-insert_ne :
      (k k' : K) (v : V) (m : List (K × V)) → k ≢ k' → get lt k (insert lt k' v m) ≡ get lt k m
  unfolding insert
  get-insert_ne k k' v [] n = get-skip k (k', v) [] (λ e. n (sym e))
  get-insert_ne k k' v (e ∷ r) n = elim (Bool-cases (lt e.0 k')) [
    | inl p ↦ rw p (both_skip (get-insert_ne k k' v r n) (key_cases lt o e.0 k))
    | inr p ↦ elim (Bool-cases (lt k' e.0)) [
      | inl q ↦ rw (p, q) (get-skip k (k', v) (e ∷ r) (λ x. n (sym x)))
      | inr q ↦
          rw (p, q)
            (get-skip k (k', v) r (λ x. n (sym x))
              ∙ sym (get-skip k e r (λ x. n (sym x ∙ o.connected e.0 k' p q))))
    ]
  ]
    where
      both_skip :
          get lt k (insert lt k' v r) ≡ get lt k r
          → (e.0 ≡ k) ⊎ (e.0 ≢ k)
          → get lt k (e ∷ insert lt k' v r) ≡ get lt k (e ∷ r)
      both_skip again (inl q) = get-hit k e _ q ∙ sym (get-hit k e r q)
      both_skip again (inr q) = get-skip k e _ q ∙ again ∙ sym (get-skip k e r q)

  pub All-insert :
      (P : K × V → Type 0) (k : K) (v : V) (m : List (K × V))
      → P (k, v)
      → All P m
      → All P (insert lt k v m)
  unfolding insert
  All-insert P k v [] p a = (p, tt)
  All-insert P k v (e ∷ r) p a = elim (Bool-cases (lt e.0 k)) [
    | inl x ↦ rw x (a.0, All-insert P k v r p a.1)
    | inr x ↦ elim (Bool-cases (lt k e.0)) [ inl y ↦ rw (x, y) (p, a) | inr y ↦ rw (x, y) (p, a.1) ]
  ]

  All-weaken :
      {P Q : K × V → Type 0} (m : List (K × V)) → ((e : K × V) → P e → Q e) → All P m → All Q m
  All-weaken [] f a = tt
  All-weaken (e ∷ r) f a = (f e a.0, All-weaken r f a.1)

  pub insert-Sorted : (k : K) (v : V) (m : List (K × V)) → Sorted lt m → Sorted lt (insert lt k v m)
  unfolding insert
  insert-Sorted k v [] s = (tt, tt)
  insert-Sorted k v (e ∷ r) s = elim (Bool-cases (lt e.0 k)) [
    | inl x ↦ rw x (All-insert _ k v r x s.0, insert-Sorted k v r s.1)
    | inr x ↦ elim (Bool-cases (lt k e.0)) [
      | inl y ↦ rw (x, y) ((y, All-weaken r (λ f p. o.transitive k e.0 f.0 y p) s.0), s)
      | inr y ↦
          rw (x, y)
            (All-weaken r (λ f p. subst (λ z. lt z f.0 ≡ true) (o.connected e.0 k x y) p) s.0, s.1)
    ]
  ]

  pub All-keep :
      (P : K × V → Type 0) (p : K × V → Bool) (m : List (K × V)) → All P m → All P (keep p m)
  All-keep P p [] a = tt
  All-keep P p (e ∷ r) a = elim (Bool-cases (p e)) [
    | inl x ↦ rw x (a.0, All-keep P p r a.1)
    | inr x ↦ rw x (All-keep P p r a.1)
  ]

  pub keep-Sorted : (p : K × V → Bool) (m : List (K × V)) → Sorted lt m → Sorted lt (keep p m)
  keep-Sorted p [] s = tt
  keep-Sorted p (e ∷ r) s = elim (Bool-cases (p e)) [
    | inl x ↦ rw x (All-keep _ p r s.0, keep-Sorted p r s.1)
    | inr x ↦ rw x (keep-Sorted p r s.1)
  ]

  none_anyway : (b : Bool) (k : K) → get {V = V} lt k [] ≡ (if b then get {V = V} lt k [] else none)
  unfolding get
  none_anyway true k = refl
  none_anyway false k = refl

  -- what a retained key gives, and what a dropped one gives
  pub get-keep :
      (p : K → Bool) (k : K) (m : List (K × V))
      → get lt k (keep (λ e. p e.0) m) ≡ (if p k then get lt k m else none)
  get-keep p k [] = none_anyway (p k) k
  get-keep p k (e ∷ r) = elim (key_cases lt o e.0 k) [
    | inl q ↦ elim (Bool-cases (p e.0)) [
      | inl x ↦ rw (x, sym (ap p q) ∙ x) (get-hit k e _ q ∙ sym (get-hit k e r q))
      | inr x ↦ rw (x, sym (ap p q) ∙ x) (rw (sym (ap p q) ∙ x) at (get-keep p k r))
    ]
    | inr n ↦ elim (Bool-cases (p e.0)) [
      | inl x ↦ rw (x, get-skip k e r n) (get-skip k e _ n ∙ get-keep p k r)
      | inr x ↦ rw (x, get-skip k e r n) (get-keep p k r)
    ]
  ]

  -- a key that is found is above what is below all keys
  pub get-above :
      (a k : K) (v : V) (m : List (K × V))
      → All (λ e. lt a e.0 ≡ true) m
      → get lt k m ≡ some v
      → lt a k ≡ true
  unfolding get
  get-above a k v [] h q = absurd (cc)
  get-above a k v (e ∷ r) h q = elim (key_cases lt o e.0 k) [
    | inl x ↦ subst (λ z. lt a z ≡ true) x h.0
    | inr n ↦ get-above a k v r h.1 (sym (get-skip k e r n) ∙ q)
  ]
