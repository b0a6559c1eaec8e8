-- ===== src/Feed/Trie/Parts.antt =====
-- The slots below a node, in the order of their keys, part at each bit.
use native.Mathlib.Nat.{one-le-pow}
use strk20_indexer.Prelude.{
  ℕ, suc, ◌+◌, ◌*◌, ◌/◌, ◌%◌, ◌^◌, ◌≤◌, ◌≡◌, refl, sym, ◌∙◌, ap, Bool, true, false, not, inl, inr,
  some, List, [], ◌∷◌, All, keep, take, drop, partition_point, arith, length, ltb, bool_eq,
  if◌then◌else◌, Bool-cases,
}
use strk20_indexer.Map.{last}
use strk20_indexer.Map.Laws.{Sorted}
use strk20_indexer.Feed.Felt.{Felt}
use strk20_indexer.Feed.Mpt.{key_bits_from, bits_eq}
use strk20_indexer.Feed.Trie.{Key, bit}
use strk20_indexer.Feed.Trie.Branches.{bits_step}
use strk20_indexer.Feed.Mpt.Bits.{half_digit}
use strk20_indexer.Feed.Trie.Digits.{quotient_mono, bit-digit}

abbrev pub Slot : Type 0
Slot = Key × Felt

-- the map of the slots, seen from depth `s` with `n` levels left
unfoldable pub held : List Slot → ℕ → ℕ → List Bool → Felt
held [] s n j = 0
held (e ∷ r) s n j = if bits_eq (key_bits_from e.0 s n) j then e.1 else held r s n j

-- the entries of one side of level `s`
unfoldable pub goes : ℕ → Bool → Slot → Bool
goes s true e = bit e.0 s
goes s false e = not (bit e.0 s)

held_on :
    (e : Slot) (r : List Slot) (s n : ℕ) (b : Bool) (j : List Bool)
    → goes s b e ≡ true
    → held (e ∷ r) s (suc n) (b ∷ j)
      ≡ (if bits_eq (key_bits_from e.0 (suc s) n) j then e.1 else held r s (suc n) (b ∷ j))
unfolding held bits_eq goes
held_on e r s n true j x = rw (held, bits_step e.0 s n, x) refl
held_on e r s n false j x =
    let y : bit e.0 s ≡ false = ground arith in rw (held, bits_step e.0 s n, y) refl

held_off :
    (e : Slot) (r : List Slot) (s n : ℕ) (b : Bool) (j : List Bool)
    → goes s b e ≡ false
    → held (e ∷ r) s (suc n) (b ∷ j) ≡ held r s (suc n) (b ∷ j)
unfolding held bits_eq goes
held_off e r s n true j x = rw (held, bits_step e.0 s n, x) refl
held_off e r s n false j x =
    let y : bit e.0 s ≡ true = ground arith in rw (held, bits_step e.0 s n, y) refl

pub held_side :
    (es : List Slot) (s n : ℕ) (b : Bool) (j : List Bool)
    → held es s (suc n) (b ∷ j) ≡ held (keep (goes s b) es) (suc s) n j
unfolding held
held_side [] s n b j = refl
held_side (e ∷ r) s n b j = elim (Bool-cases (goes s b e)) [
  | inl x ↦ held_on e r s n b j x ∙ rw (x, held_side r s n b j) refl
  | inr x ↦ held_off e r s n b j x ∙ rw x (held_side r s n b j)
]

-- no entry that passes the test stands after one that does not
abbrev pub IsParted : (Slot → Bool) → List Slot → Type 0
IsParted p [] = Unit
IsParted p (e ∷ r) = (p e ≡ false → All (λ f. p f ≡ false) r) × IsParted p r

module _ (p : Slot → Bool) where
  pub keep_none : (es : List Slot) → All (λ f. p f ≡ false) es → keep p es ≡ []
  keep_none [] h = refl
  keep_none (e ∷ r) h = rw h.0 (keep_none r h.1)

  pub keep_every : (es : List Slot) → All (λ f. p f ≡ true) es → keep p es ≡ es
  keep_every [] h = refl
  keep_every (e ∷ r) h = rw (h.0, keep_every r h.1) refl

  pub take_parted : (es : List Slot) → IsParted p es → take (partition_point p es) es ≡ keep p es
  take_parted [] h = refl
  take_parted (e ∷ r) h = elim (Bool-cases (p e)) [
    | inl x ↦ rw (x, take_parted r h.1) refl
    | inr x ↦ rw (x, keep_none r (h.0 x)) refl
  ]

pub drop_parted :
    (p q : Slot → Bool) (es : List Slot)
    → ((e : Slot) → q e ≡ not (p e))
    → IsParted p es
    → drop (partition_point p es) es ≡ keep q es
drop_parted p q [] w h = refl
drop_parted p q (e ∷ r) w h = elim (Bool-cases (p e)) [
  | inl x ↦ rw (x, w e, x) (drop_parted p q r w h.1)
  | inr x ↦ rw (x, w e, x) (ap (λ (xs : List Slot). e ∷ xs) (sym (keep_every q r (rest r (h.0 x)))))
]
  where
    rest : (r : List Slot) → All (λ f. p f ≡ false) r → All (λ f. q f ≡ true) r
    rest [] a = tt
    rest (f ∷ r) a = (w f ∙ rw a.0 refl, rest r a.1)

-- the entries under one node: keys that share all bits above the levels left
abbrev pub IsUnder : ℕ → ℕ → List Slot → Type 0
IsUnder n q es = All (λ e. e.0 / 2 ^ n ≡ q) es

half : (x q b n : ℕ) → x / 2 ^ suc n ≡ q → (x / 2 ^ n % 2 ≡ b) → x / 2 ^ n ≡ q * 2 + b
half x q b n h e = omega (arith, half_digit x n)

-- a side of a level has the bit of its quotient
pub goes_digit :
    (e : Slot) (s n q : ℕ) (b : Bool)
    → s + suc n ≡ 251
    → e.0 / 2 ^ suc n ≡ q
    → goes s b e ≡ true
    → e.0 / 2 ^ n ≡ q * 2 + (if b then 1 else 0)
unfolding goes
goes_digit e s n q true l h x = ground (arith, half_digit e.0 n, bit-digit e.0 s n l)
goes_digit e s n q false l h x = ground (arith, half_digit e.0 n, bit-digit e.0 s n l)

pub digit_goes :
    (key s n q : ℕ) (b : Bool) (t : Felt)
    → s + suc n ≡ 251
    → key / 2 ^ n ≡ q * 2 + (if b then 1 else 0)
    → (bit key s ≡ b)
      × (key / 2 ^ suc n ≡ q)
      × (goes s b (key, t) ≡ true)
      × (goes s (not b) (key, t) ≡ false)
unfolding goes
digit_goes key s n q true t l h =
    let x : bit key s ≡ true = ground (arith, bit-digit key s n l) in
    (x, omega (arith, half_digit key n), x, rw x refl)
digit_goes key s n q false t l h =
    let x : bit key s ≡ false = ground (arith, bit-digit key s n l) in
    (x, omega (arith, half_digit key n), rw x refl, x)

pub All-map {κ μ} :
    {P : Slot → Type κ} {Q : Slot → Type μ}
    → ((e : Slot) → P e → Q e)
    → (es : List Slot) → All P es
    → All Q es
All-map f [] h = tt
All-map f (e ∷ r) h = (f e h.0, All-map f r h.1)

pub All-zip : (P Q : Slot → Type 0) (es : List Slot) → All P es → All Q es → All (λ e. P e × Q e) es
All-zip P Q [] h g = tt
All-zip P Q (e ∷ r) h g = ((h.0, g.0), All-zip P Q r h.1 g.1)

pub All-kept : (p : Slot → Bool) (es : List Slot) → All (λ e. p e ≡ true) (keep p es)
All-kept p [] = tt
All-kept p (e ∷ r) = elim (Bool-cases (p e)) [
  | inl x ↦ rw x (x, All-kept p r)
  | inr x ↦ rw x (All-kept p r)
]

-- the last entry has the greatest key
pub record Greatest (es : List Slot) : Type 1 where
  pub entry : Slot
  pub is_last : last es ≡ some entry
  pub above : All (λ x. x.0 ≤ entry.0) es
  pub member : (P : Slot → Type 0) → All P es → P entry
  pub kept : (p : Slot → Bool) → p entry ≡ true → 1 ≤ length (keep p es)

pub Greatest-cons : (e : Slot) (r : List Slot) → Sorted ltb (e ∷ r) → Greatest (e ∷ r)
unfolding last
Greatest-cons e [] h = record {
  entry = e;
  is_last = refl;
  above = (omega arith, tt);
  member = λ P a. a.0;
  kept = λ p x. rw x (omega arith);
}
Greatest-cons e (f ∷ r) h =
    let g = Greatest-cons f r h.1 in
    record {
      entry = g.entry;
      is_last = g.is_last;
      above = (ground (arith, g.member (λ x. ltb e.0 x.0 ≡ true) h.0), g.above);
      member = λ P a. g.member P a.1;
      kept = λ p x. more p (g.kept p x);
    }
  where
    more : (p : Slot → Bool) → 1 ≤ length (keep p (f ∷ r)) → 1 ≤ length (keep p (e ∷ f ∷ r))
    more p l = elim (Bool-cases (p e)) [ inl x ↦ rw x (omega arith) | inr x ↦ rw x l ]

pub least : (e : Slot) (r : List Slot) → Sorted ltb (e ∷ r) → All (λ x. e.0 ≤ x.0) (e ∷ r)
least e r o = (omega arith, All-map (λ x h. ground (arith, h)) r o.0)

-- The first of two keys that part at a level goes left.
pub apart :
    (e z : Slot) (s n q : ℕ)
    → s + suc n ≡ 251
    → e.0 / 2 ^ suc n ≡ q
    → z.0 / 2 ^ suc n ≡ q
    → e.0 ≤ z.0
    → bool_eq (bit e.0 s) (bit z.0 s) ≡ false
    → (goes s false e ≡ true) × (goes s true z ≡ true)
unfolding goes
apart e z s n q l h k o x = ground (
  arith,
  quotient_mono e.0 z.0 (2 ^ n) (one-le-pow n 2 (omega arith)) o,
  half_digit e.0 n,
  half_digit z.0 n,
  bit-digit e.0 s n l,
  bit-digit z.0 s n l,
)

pub first : (p : Slot → Bool) (e : Slot) (r : List Slot) → p e ≡ true → 1 ≤ length (keep p (e ∷ r))
first p e r x = rw x (omega arith)

-- keys between two that share a quotient share it
pub between :
    (es : List Slot) (n q lo hi : ℕ)
    → All (λ x. lo ≤ x.0) es
    → All (λ x. x.0 ≤ hi) es
    → lo / 2 ^ n ≡ q
    → hi / 2 ^ n ≡ q
    → IsUnder n q es
between es n q lo hi l h a b =
    All-map (λ x w. squeeze x.0 w) es (All-zip (λ x. lo ≤ x.0) (λ x. x.0 ≤ hi) es l h)
  where
    squeeze : (x : ℕ) → (lo ≤ x) × (x ≤ hi) → x / 2 ^ n ≡ q
    squeeze x (u, v) = omega (
      arith,
      quotient_mono lo x (2 ^ n) (one-le-pow n 2 (omega arith)) u,
      quotient_mono x hi (2 ^ n) (one-le-pow n 2 (omega arith)) v,
    )

pub goes-true : (e : Slot) (s : ℕ) → goes s false e ≡ false → goes s true e ≡ true
unfolding goes
goes-true e s x = ground arith

pub goes-bit : (e : Slot) (s : ℕ) (b : Bool) → bit e.0 s ≡ b → goes s b e ≡ true
unfolding goes
goes-bit e s true x = x
goes-bit e s false x = rw x refl
