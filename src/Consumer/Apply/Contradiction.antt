-- ===== src/Consumer/Apply/Contradiction.antt =====
-- When a stored block contradicts an epoch or a head file.
use strk20_indexer.Prelude.{
  ℕ, ◌≤◌, ◌≡◌, ◌≢◌, ◌⊎◌, ◌↔◌, refl, ap, ◌∙◌, inl, inr, Bool, true, false, not, ◌&&◌, ◌||◌, Option,
  none, some, List, [], ◌∷◌, All, leb, leb→le, le→leb, ◌==◌, ==_iff, Bool-cases, arith,
}
use strk20_indexer.Feed.Felt.{Felt}
use strk20_indexer.Feed.Codec.{BlockLine, Finality, l1, l2, Head}
use strk20_indexer.Consumer.Apply.{holds_block, contradicts}
use strk20_indexer.Consumer.Apply.Tail.{find_block, tail_contradicts, is_l1, tail_blocks}

-- one of the list has the property
abbrev pub AnyOf : {A : Type 0} → (A → Type 0) → List A → Type 0
AnyOf P [] = ⊥
AnyOf P (a ∷ r) = P a ⊎ AnyOf P r

-- no block has the number and the hash
abbrev pub IsLost : List BlockLine → ℕ × Felt → Type 0
IsLost blocks x = All (λ b. ¬ ((b.number ≡ x.0) × (b.hash ≡ x.1))) blocks

-- the first block of the number
abbrev pub IsFirst : ℕ → BlockLine → List BlockLine → Type 0
IsFirst n b [] = ⊥
IsFirst n b (a ∷ r) = ((a.number ≡ n) × (a ≡ b)) ⊎ ((a.number ≢ n) × IsFirst n b r)

-- The file has another hash for the block, or has no such block though its tail reaches down to it.
abbrev pub IsReplaced : Head → ℕ × Felt → Type 0
IsReplaced head x =
    ((b : BlockLine) × IsFirst x.0 b head.blocks × (b.hash ≢ x.1))
    ⊎ (All (λ b. b.number ≢ x.0) head.blocks × (head.header.tail_from ≤ x.0))

-- each block comes with whether it is final on L1
abbrev pub AreMarked : List BlockLine → List (BlockLine × Bool) → Type 0
AreMarked [] [] = Unit
AreMarked [] (x ∷ xs) = ⊥
AreMarked (b ∷ r) [] = ⊥
AreMarked (b ∷ r) (x ∷ xs) = (x.0 ≡ b) × ((x.1 ≡ true) ↔ (b.finality ≡ some l1)) × AreMarked r xs

or_iff : {P Q : Type 0} (a b : Bool) → (a ≡ true) ↔ P → (b ≡ true) ↔ Q → ((a || b) ≡ true) ↔ (P ⊎ Q)
or_iff true b p q = (λ e. inl (p.0 refl), λ x. refl)
or_iff {P} {Q} false b p q = (λ e. inr (q.0 e), back)
  where
    back : P ⊎ Q → b ≡ true
    back (inl x) = absurd (cc (p.1 x))
    back (inr x) = q.1 x

holds_block-IsLost :
    (blocks : List BlockLine) (x : ℕ × Felt)
    → (not (holds_block blocks x.0 x.1) ≡ true) ↔ IsLost blocks x
unfolding holds_block
holds_block-IsLost [] x = (λ e. tt, λ e. refl)
holds_block-IsLost (b ∷ r) x = elim (Bool-cases ((b.number == x.0) && (b.hash == x.1))) [
  | inl y ↦
      let held : (b.number ≡ x.0) × (b.hash ≡ x.1) = (ground arith, ground arith) in
      rw y (λ e. absurd (cc), λ z. absurd (z.0 held))
  | inr y ↦ rw y (
    λ e. (λ (m, n). ground arith, (holds_block-IsLost r x).0 e),
    λ z. (holds_block-IsLost r x).1 z.1,
  )
]

pub contradicts_iff :
    (blocks : List BlockLine) (stored : List (ℕ × Felt))
    → (contradicts blocks stored ≡ true) ↔ AnyOf (IsLost blocks) stored
unfolding contradicts
contradicts_iff blocks [] = (λ e. cc, λ e. absurd e)
contradicts_iff blocks (x ∷ r) = or_iff _ _ (holds_block-IsLost blocks x) (contradicts_iff blocks r)

first_same :
    (n : ℕ) (a b : BlockLine) (bs : List BlockLine) → IsFirst n a bs → IsFirst n b bs → a ≡ b
first_same n a b [] f _ = elim f [ ]
first_same n a b (x ∷ r) (inl (p, q)) (inl (u, v)) = cc
first_same n a b (x ∷ r) (inl (p, q)) (inr (u, v)) = absurd (u p)
first_same n a b (x ∷ r) (inr (p, q)) (inl (u, v)) = absurd (p u)
first_same n a b (x ∷ r) (inr (p, q)) (inr (u, v)) = first_same n a b r q v

first_none :
    (n : ℕ) (a : BlockLine) (bs : List BlockLine) → IsFirst n a bs → All (λ b. b.number ≢ n) bs → ⊥
first_none n a [] f _ = elim f [ ]
first_none n a (x ∷ r) (inl (p, q)) (u, v) = u p
first_none n a (x ∷ r) (inr (p, q)) (u, v) = first_none n a r q v

find_block_cases :
    (n : ℕ) (bs : List BlockLine)
    → ((b : BlockLine) × (find_block n bs ≡ some b) × IsFirst n b bs)
      ⊎ ((find_block n bs ≡ none) × All (λ b. b.number ≢ n) bs)
unfolding find_block
find_block_cases n [] = inr (refl, tt)
find_block_cases n (b ∷ r) = elim (Bool-cases (b.number == n)) [
  | inl x ↦ rw x (inl (b, refl, inl ((==_iff b.number n).0 x, refl)))
  | inr x ↦ rw x (elim (find_block_cases n r) [
    | inl (a, q, f) ↦ inl (a, q, inr (differs x, f))
    | inr (q, f) ↦ inr (q, (differs x, f))
  ])
]
  where
    differs : (b.number == n) ≡ false → b.number ≢ n
    differs x = ground arith

find_block-IsReplaced :
    (head : Head) (x : ℕ × Felt)
    → ((elim (find_block x.0 head.blocks) [
      | some b ↦ not (b.hash == x.1)
      | none ↦ leb head.header.tail_from x.0
    ])
        ≡ true)
      ↔ IsReplaced head x
find_block-IsReplaced head x = elim (find_block_cases x.0 head.blocks) [
  | inl (b, q, f) ↦ rw q (λ e. inl (b, f, ground arith), back b f)
  | inr (q, f) ↦ rw q (λ e. inr (f, leb→le _ _ e), low f)
]
  where
    back :
        (b : BlockLine) → IsFirst x.0 b head.blocks → IsReplaced head x → not (b.hash == x.1) ≡ true
    back b f (inl (a, g, d)) =
        let same = first_same x.0 a b head.blocks g f in
        (let unequal : b.hash ≢ x.1 = λ e. d (ap (λ y. y.hash) same ∙ e) in ground arith)
    back b f (inr (g, l)) = absurd (first_none x.0 b head.blocks f g)

    low :
        All (λ b. b.number ≢ x.0) head.blocks
        → IsReplaced head x
        → leb head.header.tail_from x.0 ≡ true
    low f (inl (a, g, d)) = absurd (first_none x.0 a head.blocks g f)
    low f (inr (g, l)) = le→leb _ _ l

pub tail_contradicts_iff :
    (head : Head) (stored : List (ℕ × Felt))
    → (tail_contradicts head stored ≡ true) ↔ AnyOf (IsReplaced head) stored
unfolding tail_contradicts
tail_contradicts_iff head [] = (λ e. cc, λ e. absurd e)
tail_contradicts_iff head (x ∷ r) =
    or_iff _ _ (find_block-IsReplaced head x) (tail_contradicts_iff head r)

is_l1_iff : (f : Option Finality) → (is_l1 f ≡ true) ↔ (f ≡ some l1)
unfolding is_l1
is_l1_iff none = (λ e. absurd (cc), λ e. absurd (cc))
is_l1_iff (some l1) = (λ e. refl, λ e. refl)
is_l1_iff (some l2) = (λ e. absurd (cc), λ e. absurd (cc))

pub tail_blocks-AreMarked : (bs : List BlockLine) → AreMarked bs (tail_blocks bs)
unfolding tail_blocks
tail_blocks-AreMarked [] = tt
tail_blocks-AreMarked (b ∷ r) = (refl, is_l1_iff b.finality, tail_blocks-AreMarked r)
