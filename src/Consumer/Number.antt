-- ===== src/Consumer/Number.antt =====
-- The numbers that the mirror keeps as text: `u64::to_string` and `str::parse::<u64>`.
use Prim.Native.Char.{code}
use strk20_indexer.Prelude.{
  ℕ, zero, suc, ◌+◌, ◌-◌, ◌*◌, ◌/◌, ◌%◌, ◌≤◌, ◌<◌, ◌≡◌, refl, sym, ◌∙◌, ap, inl, inr, Bool, ◌&&◌,
  Option, none, some, List, [], ◌∷◌, String, All, subst, ne→==_false, ltb, leb, le→leb, ltb→lt,
  ◌==◌, if◌then◌else◌, Bool-cases, arith,
}
use strk20_indexer.Feed.Decimal.{decimal, digits_then, spell, digit_char}

abbrev pub u64_max : ℕ
u64_max = 18446744073709551615

is_digit : ℕ → Bool
is_digit n = leb 48 n && leb n 57

-- `none` for a character that is no digit and for a number past `u64::MAX`
parse_digits : ℕ → String → Option ℕ
unfolding is_digit
parse_digits acc String.[] = some acc
parse_digits acc (String.◌∷◌ ch s) =
    let n = acc * 10 + (code ch - 48) in
    let rest = parse_digits n s in if is_digit (code ch) && leb n u64_max then rest else none

some_digits : String → Option ℕ
unfolding parse_digits
some_digits String.[] = none
some_digits (String.◌∷◌ ch s) = parse_digits 0 (String.◌∷◌ ch s)

-- a leading `+` is allowed, an empty number is not
unfoldable pub parse_u64 : String → Option ℕ
unfolding parse_digits some_digits
parse_u64 String.[] = none
parse_u64 (String.◌∷◌ ch s) =
    if code ch == 43 then some_digits s else parse_digits 0 (String.◌∷◌ ch s)

-- the number that digits stand for, after `acc`
value_of : ℕ → List ℕ → ℕ
value_of acc [] = acc
value_of acc (d ∷ ds) = value_of (acc * 10 + d) ds

value_of-le : (acc : ℕ) (ds : List ℕ) → acc ≤ value_of acc ds
unfolding value_of
value_of-le acc [] = omega arith
value_of-le acc (d ∷ ds) = ground (arith, value_of-le (acc * 10 + d) ds)

digits_then-value_of :
    (fuel n : ℕ) (rest : List ℕ) → n < fuel → value_of 0 (digits_then fuel n rest) ≡ value_of n rest
unfolding digits_then value_of
digits_then-value_of zero n rest h = absurd (omega arith)
digits_then-value_of (suc fuel) n rest h = elim (Bool-cases (ltb n 10)) [
  | inl e ↦ rw e (ap (λ (x : ℕ). value_of x rest) {x = 0 * 10 + n} {y = n} (omega arith))
  | inr e ↦
      rw (e, digits_then-value_of fuel (n / 10) (n % 10 ∷ rest) (ground arith))
        (ap (λ (x : ℕ). value_of x rest) {x = n / 10 * 10 + n % 10} {y = n} (omega arith))
]

digits_then-digits :
    (fuel n : ℕ) (rest : List ℕ)
    → All (λ d. d < 10) rest
    → n < fuel
    → All (λ d. d < 10) (digits_then fuel n rest)
unfolding digits_then
digits_then-digits zero n rest a h = absurd (omega arith)
digits_then-digits (suc fuel) n rest a h = elim (Bool-cases (ltb n 10)) [
  | inl e ↦ rw e (ltb→lt _ _ e, a)
  | inr e ↦ rw e (digits_then-digits fuel (n / 10) (n % 10 ∷ rest) (omega arith, a) (ground arith))
]

digit_code : (d : ℕ) → d < 10 → code (digit_char d) ≡ 48 + d
unfolding digit_char
digit_code zero h = refl
digit_code (suc zero) h = refl
digit_code (suc (suc zero)) h = refl
digit_code (suc (suc (suc zero))) h = refl
digit_code (suc (suc (suc (suc zero)))) h = refl
digit_code (suc (suc (suc (suc (suc zero))))) h = refl
digit_code (suc (suc (suc (suc (suc (suc zero)))))) h = refl
digit_code (suc (suc (suc (suc (suc (suc (suc zero))))))) h = refl
digit_code (suc (suc (suc (suc (suc (suc (suc (suc zero)))))))) h = refl
digit_code (suc (suc (suc (suc (suc (suc (suc (suc (suc n))))))))) h = omega arith

parse_digits-spell :
    (acc : ℕ) (ds : List ℕ)
    → All (λ d. d < 10) ds
    → value_of acc ds ≤ u64_max
    → parse_digits acc (spell ds) ≡ some (value_of acc ds)
unfolding parse_digits spell value_of
parse_digits-spell acc [] a h = refl
parse_digits-spell acc (d ∷ ds) a h =
    let below = value_of-le (acc * 10 + d) ds in
    let rest = parse_digits-spell (acc * 10 + d) ds a.1 h in
    rw
      (
        digit_code d a.0,
        cancel d,
        le→leb 48 (48 + d) (omega arith),
        le→leb (48 + d) 57 (omega (arith, a.0)),
        le→leb (acc * 10 + d) u64_max (omega (arith, below, h)),
      )
      rest
  where
    cancel : (d : ℕ) → 48 + d - 48 ≡ d
    cancel d = omega arith

digits_then-cons :
    (fuel n : ℕ) (rest : List ℕ)
    → n < fuel
    → (d : ℕ) × (ds : List ℕ) × (digits_then fuel n rest ≡ d ∷ ds)
unfolding digits_then
digits_then-cons zero n rest h = absurd (omega arith)
digits_then-cons (suc fuel) n rest h = elim (Bool-cases (ltb n 10)) [
  | inl e ↦ (n, rest, rw e refl)
  | inr e ↦
      let (d, ds, q) = digits_then-cons fuel (n / 10) (n % 10 ∷ rest) (ground arith) in
      (d, ds, rw e q)
]

no_sign :
    (d : ℕ) (ds : List ℕ) → d < 10 → parse_u64 (spell (d ∷ ds)) ≡ parse_digits 0 (spell (d ∷ ds))
unfolding parse_u64 spell
no_sign d ds h = rw (digit_code d h, ne→==_false (48 + d) 43 (omega (arith, h))) refl

no_more : (n : ℕ) → value_of n [] ≡ n
unfolding value_of
no_more n = refl

-- A number that was written as text is read back.
pub parse_u64-decimal : (n : ℕ) → n ≤ u64_max → parse_u64 (decimal n) ≡ some n
unfolding decimal
parse_u64-decimal n h =
    let (d, ds, q) = digits_then-cons (n + 1) n [] (omega arith) in
    let v : value_of 0 (d ∷ ds) ≡ n =
      ap (value_of 0) (sym q) ∙ digits_then-value_of (n + 1) n [] (omega arith) ∙ no_more n in
    let a : All (λ x. x < 10) (d ∷ ds) =
      subst (λ (xs : List ℕ). All (λ x. x < 10) xs) q
        (digits_then-digits (n + 1) n [] tt (omega arith)) in
    rw q (no_sign d ds a.0 ∙ parse_digits-spell 0 (d ∷ ds) a (omega (arith, v, h)) ∙ ap some v)
