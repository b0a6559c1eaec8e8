-- ===== src/Feed/Decimal.antt =====
-- The decimal forms that file names use: `{}` and `{:08}`.
use Prim.Native.Char.{Char}
use strk20_indexer.Prelude.{
  ℕ, zero, suc, ◌+◌, ◌-◌, ◌/◌, ◌%◌, List, [], ◌∷◌, String, length, ltb, if◌then◌else◌,
}

unfoldable pub digit_char : ℕ → Char
digit_char zero = "0"
digit_char (suc zero) = "1"
digit_char (suc (suc zero)) = "2"
digit_char (suc (suc (suc zero))) = "3"
digit_char (suc (suc (suc (suc zero)))) = "4"
digit_char (suc (suc (suc (suc (suc zero))))) = "5"
digit_char (suc (suc (suc (suc (suc (suc zero)))))) = "6"
digit_char (suc (suc (suc (suc (suc (suc (suc zero))))))) = "7"
digit_char (suc (suc (suc (suc (suc (suc (suc (suc zero)))))))) = "8"
digit_char _ = "9"

-- the digits of `n`, then `rest`; a number has fewer digits than its value plus one
unfoldable pub digits_then : ℕ → ℕ → List ℕ → List ℕ
digits_then zero n rest = rest
digits_then (suc fuel) n rest =
    let more = digits_then fuel (n / 10) (n % 10 ∷ rest) in if ltb n 10 then n ∷ rest else more

pad : ℕ → List ℕ → List ℕ
pad zero ds = ds
pad (suc n) ds = 0 ∷ pad n ds

unfoldable pub spell : List ℕ → String
unfolding digit_char
spell [] = ""
spell (d ∷ ds) = String.◌∷◌ (digit_char d) (spell ds)

unfoldable pub decimal : ℕ → String
unfolding digits_then spell
decimal n = spell (digits_then (n + 1) n [])

-- at least eight digits
unfoldable pub decimal8 : ℕ → String
unfolding digits_then pad spell
decimal8 n = let ds = digits_then (n + 1) n [] in spell (pad (8 - length ds) ds)
