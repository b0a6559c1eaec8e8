-- ===== src/Feed/Error.antt =====
-- `FeedError` of crates/feed/src/lib.rs and the `?` operator. A message keeps the constant part of
-- its format string; the numbers that it prints are dropped.
use strk20_indexer.Prelude.{ℕ, String, ◌≡◌, refl, Bool, true, false}

pub data FeedError : Type 0 where
  bad_felt : String → FeedError
  malformed : String → FeedError
  json : FeedError
  hash_mismatch : (epoch : ℕ) (expected actual : String) → FeedError
  chain_broken : (epoch : ℕ) (expected actual : String) → FeedError
  decompress_failed : FeedError
  decompress_limit : (artifact : String) (cap : ℕ) → FeedError

-- what a fallible function of the crate returns
pub data Result {μ} (T : Type μ) : Type μ where
  ok : T → Result T
  err : FeedError → Result T

-- `?`: the first error ends the function
infixl 5 ◌>>=◌ ◌>>◌
abbrev pub ◌>>=◌ {μ ν} : {T : Type μ} {U : Type ν} (r : Result T) (next : T → Result U) → Result U
(err failure) >>= next = err failure
(ok value) >>= next = next value

-- the same after a check
abbrev pub ◌>>◌ {ν} : {U : Type ν} (check : Result (Unit {0})) (next : Result U) → Result U
check >> next = check >>= (λ nothing. next)

-- `if !test { return Err(failure) }`
abbrev pub ensure : (test : Bool) (failure : FeedError) → Result (Unit {0})
ensure false failure = err failure
ensure true failure = ok tt

-- What a successful step returned to the rest of its function.
pub >>=-eq-ok {μ ν} :
    {T : Type μ} {U : Type ν} (r : Result T) (next : T → Result U) {u : U}
    → (r >>= next) ≡ ok u
    → (t : T) × (r ≡ ok t) × (next t ≡ ok u)
>>=-eq-ok (err failure) next q = cc
>>=-eq-ok (ok value) next q = (value, refl, q)

-- What stands behind a successful `ensure`, with the test that passed.
pub ensure-eq-ok {ν} :
    {U : Type ν} (test : Bool) (failure : FeedError) (next : Result U) {u : U}
    → (ensure test failure >> next) ≡ ok u
    → (test ≡ true) × (next ≡ ok u)
ensure-eq-ok false failure next q = cc
ensure-eq-ok true failure next q = (refl, q)
