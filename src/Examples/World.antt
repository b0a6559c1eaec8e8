-- ===== src/Examples/World.antt =====
-- Toy versions of the third-party code: two linear hash functions, a table of hexadecimal texts,
-- documents in place of JSON texts, of which a line of one byte names one.
use strk20_indexer.Prelude.{
  ℕ, zero, suc, ◌+◌, ◌*◌, Bool, true, false, Option, none, some, List, [], ◌∷◌, String, str_eq,
  length, ◌==◌, if◌then◌else◌,
}
use strk20_indexer.Feed.Felt.{Felt, Crypto}
use strk20_indexer.Feed.Host.{Bytes, Host, Json}

abbrev assoc : {A : Type 0} → List (String × A) → String → Option A
assoc [] s = none
assoc ((k, x) ∷ r) s = let rest = assoc r s in if str_eq k s then some x else rest

abbrev sum : List Felt → Felt
sum [] = 0
sum (x ∷ r) = x + 2 * sum r

abbrev hex_table : List (String × Felt)
hex_table =
    ("0x0", 0)
    ∷ ("0x1", 1)
    ∷ ("0x4", 4)
    ∷ ("0x5", 5)
    ∷ ("0x7", 7)
    ∷ ("0x9", 9)
    ∷ ("0xf", 15)
    ∷ ("0x21", 33)
    ∷ ("0x70", 112)
    ∷ ("0x1d8", 472)
    ∷ ("0x162f", 5679)
    ∷ ("0x2d69", 11625)
    ∷ []

abbrev pub crypto : Crypto
crypto = record {
  pedersen_hash = λ a b. 2 * a + 3 * b + 1;
  poseidon_hash_many = λ xs. sum xs + 1;
  add = λ a b. a + b;
  from_hex = assoc hex_table;
}

-- a digest of 32 bytes: the length of the payload, then zeros
abbrev pub zeros : ℕ → Bytes
zeros zero = []
zeros (suc n) = 0 ∷ zeros n

abbrev pub digest : Bytes → Bytes
digest b = length b ∷ zeros 31

abbrev name_of : ℕ → String
name_of n = if n == 4 then "four" else if n == 8 then "eight" else "other"

abbrev first_byte : Bytes → String
first_byte [] = "none"
first_byte (n ∷ r) = name_of n

abbrev hex_bytes : String → Option Bytes
hex_bytes s = if str_eq s "eight" then some (8 ∷ zeros 31) else none

abbrev pub host : Host
host = record {
  payload_sha256 = digest;
  hex_encode = first_byte;
  hex_decode = hex_bytes;
  is_utf8 = λ b. true;
}

mutual
  pub data Doc : Type 0 where
    null : Doc
    text : String → Doc
    number : ℕ → Doc
    array : Docs → Doc
    object : Fields → Doc

  pub data Docs : Type 0 where
    nil : Docs
    cons : Doc → Docs → Docs

  pub data Fields : Type 0 where
    end : Fields
    field : String → Doc → Fields → Fields

abbrev to_list : Docs → List Doc
to_list nil = []
to_list (cons d r) = d ∷ to_list r

abbrev in_fields : Fields → String → Option Doc
in_fields end s = none
in_fields (field k d r) s = let rest = in_fields r s in if str_eq k s then some d else rest

abbrev get_field : Doc → String → Option Doc
get_field (object fs) s = in_fields fs s
get_field _ s = none

abbrev text_of : Doc → Option String
text_of (text s) = some s
text_of _ = none

abbrev number_of : Doc → Option ℕ
number_of (number n) = some n
number_of _ = none

abbrev items_of : Doc → Option (List Doc)
items_of (array xs) = some (to_list xs)
items_of _ = none

abbrev null_doc : Doc → Bool
null_doc null = true
null_doc _ = false

abbrev object_doc : Doc → Bool
object_doc (object fs) = true
object_doc _ = false

abbrev nth : List Doc → ℕ → Option Doc
nth [] n = none
nth (d ∷ r) zero = some d
nth (d ∷ r) (suc n) = nth r n

abbrev parse_doc : List Doc → Bytes → Option Doc
parse_doc docs (n ∷ []) = nth docs n
parse_doc docs _ = none

-- the documents that a text can name
abbrev pub json_of : List Doc → Json Doc
json_of docs = record {
  from_str = parse_doc docs;
  get = get_field;
  as_str = text_of;
  as_u64 = number_of;
  as_array = items_of;
  is_null = null_doc;
  is_object = object_doc;
}
