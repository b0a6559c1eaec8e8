-- ===== src/Feed/Trie/Build.antt =====
-- The tree that is built from a whole set of slots holds the set.
use native.Mathlib.Nat.{one-le-pow, div-one}
use strk20_indexer.Prelude.{
  ℕ, zero, suc, ◌+◌, ◌*◌, ◌/◌, ◌^◌, ◌≤◌, ◌<◌, ◌≡◌, ◌≢◌, refl, sym, ◌∙◌, ap, ap₂, Bool, true, false,
  not, inl, inr, Option, none, some, List, [], ◌∷◌, All, keep, arith, length, ltb, bool_eq,
  bool_eq→eq, if◌then◌else◌, Bool-cases,
}
use strk20_indexer.Map.{last}
use strk20_indexer.Map.Laws.{ltb-IsOrder, Sorted, keep-Sorted, All-keep}
use strk20_indexer.Feed.Felt.{Felt, Crypto}
use strk20_indexer.Feed.Trie.{Node, leaf, bit, key_of, build, branch_at}
use strk20_indexer.Feed.Trie.Holds.{Holds, skip, Holds-ext}
use strk20_indexer.Feed.Trie.Branches.{single, branch_at-Holds, same_from, differs_from}
use strk20_indexer.Feed.Mpt.Bits.{half_digit}
use strk20_indexer.Feed.Trie.Digits.{quotient_mono, Agree-quotient}
use strk20_indexer.Feed.Trie.Parts.{
  Slot, held, goes, held_side, IsParted, keep_none, keep_every, take_parted, drop_parted, IsUnder,
  goes_digit, digit_goes, All-map, All-zip, All-kept, Greatest-cons, least, apart, first, between,
  goes-true, goes-bit,
}

module _ (c : Crypto) where
  -- the node of a non-empty set
  pub record Built (n s q : ℕ) (m : List Bool → Felt) (o : Option Node) : Type 0 where
    pub node : Node
    pub is_node : o ≡ some node
    pub holds : Holds c n s node m
    pub under : key_of node / 2 ^ n ≡ q

  abbrev pub Entries : ℕ → ℕ → List Slot → Type 0
  Entries n q es = (1 ≤ length es) × Sorted ltb es × All (λ e. e.1 ≢ 0) es × IsUnder n q es

  side-Entries :
      (es : List Slot) (s n q : ℕ) (b : Bool)
      → s + suc n ≡ 251
      → Entries (suc n) q es
      → 1 ≤ length (keep (goes s b) es)
      → Entries n (q * 2 + (if b then 1 else 0)) (keep (goes s b) es)
  side-Entries es s n q b l (w, o, z, u) k = (
    k,
    keep-Sorted ltb ltb-IsOrder (goes s b) es o,
    All-keep ltb ltb-IsOrder _ (goes s b) es z,
    All-map (λ e h. goes_digit e s n q b l h.0 h.1) (keep (goes s b) es)
        (All-zip (λ e. e.0 / 2 ^ suc n ≡ q) (λ e. goes s b e ≡ true) _
          (All-keep ltb ltb-IsOrder _ (goes s b) es u) (All-kept (goes s b) es)),
  )

  -- all entries are on one side
  one_side :
      (es : List Slot) (s n q : ℕ) (b : Bool) (o : Option Node)
      → s + suc n ≡ 251
      → IsUnder n (q * 2 + (if b then 1 else 0)) es
      → Built n (suc s) (q * 2 + (if b then 1 else 0)) (held es (suc s) n) o
      → Built (suc n) s q (held es s (suc n)) o
  unfolding held
  one_side es s n q b o l u t =
      let d = digit_goes (key_of t.node) s n q b 0 l t.under in
      record {
        node = t.node;
        is_node = t.is_node;
        holds =
            skip b d.0
              (Holds-ext c _ t.holds (λ k e.
                held_side es s n b k
                ∙ ap (λ (xs : List Slot). held xs (suc s) n k)
                    (keep_every _ es (All-map (λ e h. (digit_goes e.0 s n q b e.1 l h).2) es u))))
              (λ k e.
                held_side es s n (not b) k
                ∙ ap (λ (xs : List Slot). held xs (suc s) n k)
                    (keep_none _ es (All-map (λ e h. (digit_goes e.0 s n q b e.1 l h).3) es u)));
        under = d.1;
      }

  -- the two halves of a set that parts at `s`
  build_halves : (fuel s : ℕ) (es : List Slot) → Option Node
  build_halves fuel s es = elim (build c fuel (keep (goes s false) es) (suc s)) [
    | none ↦ none
    | some left ↦ elim (build c fuel (keep (goes s true) es) (suc s)) [
      | none ↦ none
      | some right ↦ some (branch_at c s left right)
    ]
  ]

  halves-Built :
      (fuel n s q : ℕ) (es : List Slot)
      → s + suc n ≡ 251
      → Built n
          (suc s)
          (q * 2 + 0)
          (held (keep (goes s false) es) (suc s) n)
          (build c fuel (keep (goes s false) es) (suc s))
      → Built n
          (suc s)
          (q * 2 + 1)
          (held (keep (goes s true) es) (suc s) n)
          (build c fuel (keep (goes s true) es) (suc s))
      → Built (suc n) s q (held es s (suc n)) (build_halves fuel s es)
  unfolding build_halves branch_at
  halves-Built fuel n s q es l x y =
      let dx = digit_goes (key_of x.node) s n q false 0 l x.under in
      let dy = digit_goes (key_of y.node) s n q true 0 l y.under in
      record {
        node = branch_at c s x.node y.node;
        is_node = rw (build_halves, x.is_node, y.is_node) refl;
        holds =
            branch_at-Holds c n s x.node y.node _ dx.0 dy.0
              (Agree-quotient _ _ s (suc n) (omega arith) (dx.1 ∙ sym dy.1))
              (Holds-ext c _ x.holds (λ k e. held_side es s n false k))
              (Holds-ext c _ y.holds (λ k e. held_side es s n true k));
        under = dx.1;
      }

  -- `build` on two entries or more
  build_parts :
      (fuel s : ℕ) (e f z : Slot) (r : List Slot)
      → s < 251
      → last (e ∷ f ∷ r) ≡ some z
      → bool_eq (bit e.0 s) (bit z.0 s) ≡ false
      → IsParted (goes s false) (e ∷ f ∷ r)
      → build c (suc fuel) (e ∷ f ∷ r) s ≡ build_halves fuel s (e ∷ f ∷ r)
  unfolding build_halves build goes
  build_parts fuel s e f z r l g d p =
      let es = e ∷ f ∷ r in
      rw (build, g, differs_from e.0 z.0 s 251 l d)
        (ap₂ halves (take_parted (goes s false) es p)
          (drop_parted (goes s false) (goes s true) es (λ x. twice (bit x.0 s)) p))
    where
      halves : List Slot → List Slot → Option Node
      halves us vs = elim (build c fuel us (suc s)) [
        | none ↦ none
        | some left ↦ elim (build c fuel vs (suc s)) [
          | none ↦ none
          | some right ↦ some (branch_at c s left right)
        ]
      ]

      twice : (b : Bool) → b ≡ not (not b)
      twice true = refl
      twice false = refl

  build_same :
      (fuel s : ℕ) (e f z : Slot) (r : List Slot)
      → s < 251
      → last (e ∷ f ∷ r) ≡ some z
      → bit e.0 s ≡ bit z.0 s
      → build c (suc fuel) (e ∷ f ∷ r) s ≡ build c (suc fuel) (e ∷ f ∷ r) (suc s)
  unfolding build
  build_same fuel s e f z r l g d = rw (build, g, same_from e.0 z.0 s 251 l d) refl

  single-Built :
      (fuel n s q : ℕ) (e : Slot)
      → n + s ≡ 251
      → e.1 ≢ 0
      → e.0 / 2 ^ n ≡ q
      → Built n s q (held (e ∷ []) s n) (build c fuel (e ∷ []) s)
  unfolding build held
  single-Built fuel n s q e l z u = record {
    node = leaf e.0 e.1;
    is_node = refl;
    holds = single c n s e.0 e.1 l z;
    under = u;
  }

  -- the bit of a level ascends along a set
  IsParted-Sorted :
      (es : List Slot) (n s q : ℕ)
      → s + suc n ≡ 251
      → Sorted ltb es
      → IsUnder (suc n) q es
      → IsParted (goes s false) es
  IsParted-Sorted [] n s q l o u = tt
  IsParted-Sorted (e ∷ r) n s q l o u = (λ x. later r x o.0 u.1, IsParted-Sorted r n s q l o.1 u.1)
    where
      later :
          (r : List Slot)
          → goes s false e ≡ false
          → All (λ f. ltb e.0 f.0 ≡ true) r
          → IsUnder (suc n) q r
          → All (λ f. goes s false f ≡ false) r
      later [] x a v = tt
      later (f ∷ r) x a v = (
        (digit_goes f.0 s n q true f.1 l (
            omega (
              arith,
              quotient_mono e.0 f.0 (2 ^ n) (one-le-pow n 2 (omega arith)) (ground (arith, a.0)),
              goes_digit e s n q true l u.0 (goes-true e s x),
              half_digit f.0 n,
              v.0,
            ))).3,
        later r x a.1 v.1,
      )

  -- The tree that is built holds the set.
  pub build-Built :
      (n s fuel q : ℕ) (es : List Slot)
      → s + n ≡ 251
      → n ≤ fuel
      → Entries n q es
      → Built n s q (held es s n) (build c fuel es s)
  build-Built n s fuel q [] l k (w, o, z, u) = absurd (omega (arith, w))
  build-Built n s fuel q (e ∷ []) l k (w, o, z, u) = single-Built fuel n s q e (omega arith) z.0 u.0
  build-Built zero s fuel q (e ∷ f ∷ r) l k (w, o, z, u) =
      absurd (ground (arith, o.0.0, u.0, u.1.0, div-one e.0, div-one f.0))
  build-Built (suc n) s zero q (e ∷ f ∷ r) l k (w, o, z, u) = absurd (omega arith)
  build-Built (suc n) s (suc fuel) q (e ∷ f ∷ r) l k a =
      let g = Greatest-cons e (f ∷ r) a.1 in
      elim (Bool-cases (bool_eq (bit e.0 s) (bit g.entry.0 s))) [
        | inl x ↦
            let same = bool_eq→eq (bit e.0 s) (bit g.entry.0 s) x in
            let low = goes_digit e s n q (bit e.0 s) l a.3.0 (goes-bit e s _ refl) in
            let high =
              goes_digit g.entry s n q (bit e.0 s) l (g.member (λ y. y.0 / 2 ^ suc n ≡ q) a.3)
                (goes-bit g.entry s _ (sym same)) in
            let under : IsUnder n (q * 2 + (if bit e.0 s then 1 else 0)) (e ∷ f ∷ r) =
              between (e ∷ f ∷ r) n _ e.0 g.entry.0 (least e (f ∷ r) a.1) g.above low high in
            rw (build_same fuel s e f g.entry r (omega arith) g.is_last same) (
              one_side (e ∷ f ∷ r) s n q (bit e.0 s) _ l under (
                build-Built n (suc s) (suc fuel) _ (e ∷ f ∷ r) (omega arith) (omega arith)
                  (a.0, a.1, a.2, under)))
        | inr x ↦
            let ends =
              apart e g.entry s n q l a.3.0 (g.member (λ y. y.0 / 2 ^ suc n ≡ q) a.3)
                (g.member (λ y. e.0 ≤ y.0) (least e (f ∷ r) a.1)) x in
            let parted : IsParted (goes s false) (e ∷ f ∷ r) =
              IsParted-Sorted (e ∷ f ∷ r) n s q l a.1 a.3 in
            let opened = build_parts fuel s e f g.entry r (omega arith) g.is_last x parted in
            rw opened (
              halves-Built fuel n s q (e ∷ f ∷ r) l
                (build-Built n (suc s) fuel _ _ (omega arith) (omega arith) (
                  side-Entries (e ∷ f ∷ r) s n q false l a (first (goes s false) e (f ∷ r) ends.0)))
                (build-Built n (suc s) fuel _ _ (omega arith) (omega arith)
                  (side-Entries (e ∷ f ∷ r) s n q true l a (g.kept (goes s true) ends.1))))
      ]
