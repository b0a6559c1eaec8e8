-- ===== src/Feed/Trie/Digits.antt =====
-- The bits of a key as digits of its number: the bits above a level are the quotient by the power
-- of two of the levels left, and the bits below are the remainder.
use native.Mathlib.Nat.{
  div-add-mod', mod-lt, pow-suc, one-le-pow, div-div-eq-div-mul, mod-eq_of_lt,
  mul-add-mod_self_right,
}
use strk20_indexer.Prelude.{
  ℕ, zero, suc, ◌+◌, ◌-◌, ◌*◌, ◌/◌, ◌%◌, ◌^◌, ◌≤◌, ◌<◌, ◌≡◌, refl, sym, ◌∙◌, ap, Bool, true, false,
  inl, inr, List, arith, length, ◌==◌, if◌then◌else◌, Bool-cases, ==_iff,
}
use strk20_indexer.Feed.Mpt.{bits_to_felt, key_bits_from, bits_eq}
use strk20_indexer.Feed.Mpt.Bits.{bit_at-eq-digit, pow_add}
use strk20_indexer.Feed.Mpt.Order.{bits_eq→eq, bits_eq_refl}
use strk20_indexer.Feed.Mpt.Binds.{bits_to_felt_injective}
use strk20_indexer.Feed.Mpt.Sorted.{length-key_bits_from}
use strk20_indexer.Feed.Trie.{bit}
use strk20_indexer.Feed.Trie.Holds.{Agree}
use strk20_indexer.Feed.Trie.Commit.{bit-key_bit}

pub quotient_mono : (a b d : ℕ) → 0 < d → a ≤ b → a / d ≤ b / d
quotient_mono a b d p l = grind (arith, div-add-mod' a d, div-add-mod' b d, mod-lt a p, mod-lt b p)

pub bit-digit : (key d n : ℕ) → d + suc n ≡ 251 → bit key d ≡ (key / 2 ^ n % 2 == 1)
unfolding bit
bit-digit key d n q =
    bit_at-eq-digit key (250 - d)
    ∙ ap (λ (i : ℕ). key / 2 ^ i % 2 == 1) {x = 250 - d} {y = n} (omega arith)

remainder_step :
    (key n : ℕ) → (if key / 2 ^ n % 2 == 1 then 2 ^ n else 0) + key % 2 ^ n ≡ key % 2 ^ suc n
remainder_step key n = by_bit (key / 2 ^ n % 2 == 1) refl
  where
    small : key % 2 ^ n < 2 ^ n
    small = mod-lt key (one-le-pow n 2 (omega arith))

    high : ℕ
    high = key / 2 ^ n / 2

    split :
        (b : ℕ) → key / 2 ^ n ≡ high * 2 + b → key ≡ high * 2 ^ suc n + (b * 2 ^ n + key % 2 ^ n)
    split b e =
        sym (div-add-mod' key (2 ^ n))
        ∙ omega (arith, ap (λ (t : ℕ). t * 2 ^ n) e, ap (λ (t : ℕ). high * t) (pow-suc 2 n))

    whole :
        (b : ℕ)
        → b * 2 ^ n ≤ 2 ^ n
        → key / 2 ^ n ≡ high * 2 + b
        → b * 2 ^ n + key % 2 ^ n ≡ key % 2 ^ suc n
    whole b l e =
        sym (mod-eq_of_lt (omega (arith, small, l, pow-suc 2 n)))
        ∙ sym (mul-add-mod_self_right high (2 ^ suc n) (b * 2 ^ n + key % 2 ^ n))
        ∙ ap (λ (t : ℕ). t % 2 ^ suc n) (sym (split b e))

    by_bit :
        (t : Bool)
        → (key / 2 ^ n % 2 == 1) ≡ t
        → (if key / 2 ^ n % 2 == 1 then 2 ^ n else 0) + key % 2 ^ n ≡ key % 2 ^ suc n
    by_bit true e = rw e (omega (arith, whole 1 (omega arith) (ground arith)))
    by_bit false e = rw e (omega (arith, whole 0 (omega arith) (ground arith)))

pub bits_to_felt-key_bits :
    (key d n : ℕ) → d + n ≡ 251 → bits_to_felt (key_bits_from key d n) ≡ key % 2 ^ n
unfolding bits_to_felt key_bits_from
bits_to_felt-key_bits key d zero q = omega arith
bits_to_felt-key_bits key d (suc n) q =
    rw
      (
        ← bit-key_bit key d,
        length-key_bits_from key (suc d) n,
        bit-digit key d n q,
        bits_to_felt-key_bits key (suc d) n (omega arith),
      )
      (remainder_step key n)

pub Agree-quotient : (a b s n : ℕ) → n + s ≡ 251 → a / 2 ^ n ≡ b / 2 ^ n → Agree s a b
unfolding bit
Agree-quotient a b s n q e d l =
    bit_at-eq-digit a (250 - d)
    ∙ ap (λ (t : ℕ). t % 2 == 1) digit
    ∙ sym (bit_at-eq-digit b (250 - d))
  where
    index : 2 ^ n * 2 ^ (250 - d - n) ≡ 2 ^ (250 - d)
    index =
        sym (pow_add n (250 - d - n))
        ∙ ap (λ (k : ℕ). 2 ^ k) {x = n + (250 - d - n)} {y = 250 - d} (omega arith)

    upper : (x : ℕ) → x / 2 ^ (250 - d) ≡ x / 2 ^ n / 2 ^ (250 - d - n)
    upper x =
        ap (λ (k : ℕ). x / k) (sym index) ∙ sym (div-div-eq-div-mul x (2 ^ n) (2 ^ (250 - d - n)))

    digit : a / 2 ^ (250 - d) ≡ b / 2 ^ (250 - d)
    digit = upper a ∙ ap (λ (k : ℕ). k / 2 ^ (250 - d - n)) e ∙ sym (upper b)

-- a whole key against a path
pub key_test :
    (key : ℕ) (j : List Bool)
    → key < 2 ^ 251
    → length j ≡ 251
    → bits_eq (key_bits_from key 0 251) j ≡ (key == bits_to_felt j)
key_test key j h l = elim (Bool-cases (key == bits_to_felt j)) [
  | inl e ↦
      rw
        (
          e,
          bits_to_felt_injective (key_bits_from key 0 251) j
              (length-key_bits_from key 0 251 ∙ sym l)
              (bits_to_felt-key_bits key 0 251 (omega arith) ∙ mod-eq_of_lt h ∙ (==_iff _ _).0 e),
        )
        (bits_eq_refl j)
  | inr e ↦ elim (Bool-cases (bits_eq (key_bits_from key 0 251) j)) [
    | inl f ↦ absurd (
        cc (
          e,
          (==_iff key (bits_to_felt j)).1 (
              sym (bits_to_felt-key_bits key 0 251 (omega arith) ∙ mod-eq_of_lt h)
              ∙ ap bits_to_felt (bits_eq→eq _ j f)),
        ))
    | inr f ↦ f ∙ sym e
  ]
]
