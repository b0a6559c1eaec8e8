-- ===== src/Feed/Host.antt =====
-- The third-party code that the feed's formats rest on, as parameters: `serde_json`, `sha2`, `hex`.
-- Nothing is assumed of it here. Bytes are lists of numbers below 256.
use strk20_indexer.Prelude.{
  ℕ, Bool, false, Option, List, [], ◌∷◌, ◌++◌, String, ◌==◌, if◌then◌else◌,
}

abbrev pub Bytes : Type 0
Bytes = List ℕ

pub record Host : Type 0 where
  -- `sha256` of the payload
  pub payload_sha256 : Bytes → Bytes
  pub hex_encode : Bytes → String
  pub hex_decode : String → Option Bytes
  -- `std::str::from_utf8` succeeds
  pub is_utf8 : Bytes → Bool

-- `serde_json::Value` and its accessors
pub record Json (Value : Type 0) : Type 0 where
  pub from_str : Bytes → Option Value
  pub get : Value → String → Option Value
  pub as_str : Value → Option String
  pub as_u64 : Value → Option ℕ
  pub as_array : Value → Option (List Value)
  pub is_null : Value → Bool
  pub is_object : Value → Bool

-- a text is the bytes of its UTF-8 form
abbrev pub newline : ℕ
newline = 10

unfoldable pub ends_with_newline : Bytes → Bool
ends_with_newline [] = false
ends_with_newline (b ∷ []) = b == newline
ends_with_newline (b ∷ c ∷ r) = ends_with_newline (c ∷ r)

-- a carriage return in front of the newline goes with it
unfoldable pub strip_cr : Bytes → Bytes
strip_cr [] = []
strip_cr (b ∷ []) = if b == 13 then [] else b ∷ []
strip_cr (b ∷ c ∷ r) = b ∷ strip_cr (c ∷ r)

-- `text.lines()`: `line` is what stands before `b` on its line; the last newline of a text
-- starts no further line
unfoldable pub lines_from : Bytes → Bytes → List Bytes
unfolding strip_cr
lines_from line [] = elim line [ [] ↦ [] | b ∷ r ↦ (b ∷ r) ∷ [] ]
lines_from line (b ∷ r) =
    let cut = strip_cr line ∷ lines_from [] r in
    let more = lines_from (line ++ b ∷ []) r in if b == newline then cut else more

unfoldable pub lines : Bytes → List Bytes
unfolding lines_from
lines text = lines_from [] text
