-- ===== src/Feed/Mpt/Bits.antt =====
-- The bit functions of mpt.rs, which read bytes, in terms of division by powers of two.
use native.Mathlib.Nat.{
  add-zero, pow-le-pow_right, le_trans, div-lt_iff_lt-mul, div-div-eq-div-mul, mul-add-div_right,
  div-eq_of_lt, pow-suc, one-le-pow,
}
use strk20_indexer.Prelude.{
  subst, ℕ, zero, suc, ◌+◌, ◌*◌, ◌/◌, ◌%◌, ◌^◌, ◌<◌, ◌≡◌, ◌↔◌, inl, inr, Bool-cases, leb, ◌-◌,
  leb→le, refl, sym, ◌∙◌, ap, Bool, true, false, List, [], ◌∷◌, ◌++◌, arith, length, ◌==◌,
  if◌then◌else◌, length-append,
}
use strk20_indexer.Feed.Felt.{bit_at}
use strk20_indexer.Feed.Mpt.{bits_to_felt, all_clear, fits_in_bits}

pub pow_add : (a b : ℕ) → 2 ^ (a + b) ≡ 2 ^ a * 2 ^ b
pow_add a zero = ap (λ (k : ℕ). 2 ^ k) {x = a + 0} {y = a} (omega arith) ∙ omega arith
pow_add a (suc b) =
    ap (λ (k : ℕ). 2 ^ k) {x = a + suc b} {y = suc (a + b)} (omega arith)
    ∙ pow-suc 2 (a + b)
    ∙ omega (arith, ap (λ (t : ℕ). t * 2) (pow_add a b), ap (λ (t : ℕ). 2 ^ a * t) (pow-suc 2 b))

pow_256 : (a : ℕ) → 256 ^ a ≡ 2 ^ (8 * a)
pow_256 zero = refl
pow_256 (suc a) =
    pow-suc 256 a
    ∙ ap (λ (t : ℕ). t * 256) (pow_256 a)
    ∙ sym (pow_add (8 * a) 8)
    ∙ ap (λ (k : ℕ). 2 ^ k) {x = 8 * a + 8} {y = 8 * suc a} (omega arith)

in_byte : (x r : ℕ) → r < 8 → x % 256 / 2 ^ r % 2 ≡ x / 2 ^ r % 2
in_byte x zero h = omega arith
in_byte x (suc zero) h = omega arith
in_byte x (suc (suc zero)) h = omega arith
in_byte x (suc (suc (suc zero))) h = omega arith
in_byte x (suc (suc (suc (suc zero)))) h = omega arith
in_byte x (suc (suc (suc (suc (suc zero))))) h = omega arith
in_byte x (suc (suc (suc (suc (suc (suc zero)))))) h = omega arith
in_byte x (suc (suc (suc (suc (suc (suc (suc zero))))))) h = omega arith
in_byte x (suc (suc (suc (suc (suc (suc (suc (suc r)))))))) h = absurd (omega arith)

-- The byte-wise bit test reads the binary digit of the integer.
pub bit_at-eq-digit : (f i : ℕ) → bit_at f i ≡ (f / 2 ^ i % 2 == 1)
unfolding bit_at
bit_at-eq-digit f i = ap (λ (d : ℕ). d == 1) digit
  where
    whole : 256 ^ (i / 8) * 2 ^ (i % 8) ≡ 2 ^ i
    whole =
        rw (pow_256 (i / 8), ← pow_add (8 * (i / 8)) (i % 8)) (ap (λ (k : ℕ). 2 ^ k) (omega arith))

    digit : f / 256 ^ (i / 8) % 256 / 2 ^ (i % 8) % 2 ≡ f / 2 ^ i % 2
    digit =
        in_byte (f / 256 ^ (i / 8)) (i % 8) (omega arith)
        ∙ ap (λ (k : ℕ). k % 2)
            (div-div-eq-div-mul f (256 ^ (i / 8)) (2 ^ (i % 8)) ∙ ap (λ (k : ℕ). f / k) whole)

pub bits_to_felt-lt : (bs : List Bool) → bits_to_felt bs < 2 ^ length bs
unfolding bits_to_felt
bits_to_felt-lt [] = omega arith
bits_to_felt-lt (b ∷ bs) = ground (arith, bits_to_felt-lt bs, pow-suc 2 (length bs))

-- the number that stands in front of the bits `bs`
bits_to_felt-append :
    (xs bs : List Bool)
    → bits_to_felt (xs ++ bs) ≡ bits_to_felt xs * 2 ^ length bs + bits_to_felt bs
unfolding bits_to_felt
bits_to_felt-append [] bs = omega arith
bits_to_felt-append (a ∷ xs) bs = ground (
  arith,
  bits_to_felt-append xs bs,
  ap (λ (k : ℕ). 2 ^ k) (length-append xs bs) ∙ pow_add (length xs) (length bs),
)

-- Bit `i` from the end of a path is bit `i` of its felt.
pub bit_at-bits_to_felt :
    (xs : List Bool) (b : Bool) (bs : List Bool)
    → bit_at (bits_to_felt (xs ++ b ∷ bs)) (length bs) ≡ b
unfolding bits_to_felt
bit_at-bits_to_felt xs b bs = bit_at-eq-digit _ (length bs) ∙ digit
  where
    n : ℕ
    n = length bs

    bit : ℕ
    bit = if b then 1 else 0

    split :
        (d : Bool)
        → bits_to_felt xs * 2 ^ suc n + ((if d then 2 ^ n else 0) + bits_to_felt bs)
          ≡ (bits_to_felt xs * 2 + (if d then 1 else 0)) * 2 ^ n + bits_to_felt bs
    split true = omega (arith, ap (λ (t : ℕ). bits_to_felt xs * t) (pow-suc 2 n))
    split false = omega (arith, ap (λ (t : ℕ). bits_to_felt xs * t) (pow-suc 2 n))

    value : bits_to_felt (xs ++ b ∷ bs) ≡ (bits_to_felt xs * 2 + bit) * 2 ^ n + bits_to_felt bs
    value = bits_to_felt-append xs (b ∷ bs) ∙ split b

    quotient : bits_to_felt (xs ++ b ∷ bs) / 2 ^ n ≡ bits_to_felt xs * 2 + bit
    quotient =
        ap (λ (k : ℕ). k / 2 ^ n) value
        ∙ mul-add-div_right (one-le-pow n 2 (omega arith)) (bits_to_felt xs * 2 + bit)
            (bits_to_felt bs)
        ∙ omega (arith, div-eq_of_lt (bits_to_felt-lt bs))

    digit : (bits_to_felt (xs ++ b ∷ bs) / 2 ^ n % 2 == 1) ≡ b
    digit = ap (λ (q : ℕ). q % 2 == 1) quotient ∙ ground arith

pub half_digit : (f i : ℕ) → f / 2 ^ suc i ≡ f / 2 ^ i / 2
half_digit f i = ap (λ (k : ℕ). f / k) (pow-suc 2 i) ∙ sym (div-div-eq-div-mul f (2 ^ i) 2)

all_clear_lem : (f i n : ℕ) → f < 2 ^ (i + n) → (all_clear f i n ≡ true) ↔ (f / 2 ^ i ≡ 0)
unfolding all_clear
all_clear_lem f i zero h = (λ _. div-eq_of_lt (rw add-zero at h), λ _. refl)
all_clear_lem f i (suc n) h =
    let next = all_clear_lem f (suc i) n (rw (shift i n) at h) in
    (
      λ e. ground (arith, bit_at-eq-digit f i, half_digit f i, next.0),
      λ e. ground (arith, bit_at-eq-digit f i, half_digit f i, next.1),
    )
  where
    shift : (a b : ℕ) → a + suc b ≡ suc a + b
    shift a b = omega arith

-- The test for high bits is the comparison with the power of two, on any 256-bit value.
pub fits_in_bits_iff : (f bits : ℕ) → f < 2 ^ 256 → (fits_in_bits f bits ≡ true) ↔ (f < 2 ^ bits)
unfolding fits_in_bits
fits_in_bits_iff f bits h = elim (Bool-cases (leb 256 bits)) [
  | inl wide ↦
      rw wide ((λ _. le_trans h (pow-le-pow_right (omega arith) (leb→le 256 bits wide))), λ _. refl)
  | inr narrow ↦
      let fits =
        all_clear_lem f bits (256 - bits) (subst (λ (k : ℕ). f < 2 ^ k) (sym (rest narrow)) h) in
      rw narrow ((λ e. below (fits.0 e)), λ l. fits.1 (div-eq_of_lt l))
]
  where
    rest : leb 256 bits ≡ false → bits + (256 - bits) ≡ 256
    rest e = ground arith

    below : f / 2 ^ bits ≡ 0 → f < 2 ^ bits
    below e = omega (
      arith,
      (div-lt_iff_lt-mul {x = f} {y = 1} (one-le-pow bits 2 (omega arith))).0 (omega arith),
    )
