-- ===== src/Feed/Anchors.antt =====
-- crates/feed/src/anchors.rs: the log of the roots that the publisher has checked.
pub mod Ascending
use Prim.Native.Char.{code}
use Prim.Native.String.{◌++◌ as str_append}
use strk20_indexer.Prelude.{
  ℕ, ◌*◌, ◌++◌, Bool, true, false, not, ◌&&◌, Option, none, some, List, [], ◌∷◌, length, leb, ltb,
  if◌then◌else◌, String,
}
use strk20_indexer.Feed.Error.{Result, ok, err, malformed, json, ensure, ◌>>=◌, ◌>>◌}
use strk20_indexer.Feed.Felt.{Felt, Crypto, felt_from_hex}
use strk20_indexer.Feed.Host.{Bytes, Host, Json, newline, ends_with_newline, lines}
use strk20_indexer.Feed.Decimal.{decimal}
use strk20_indexer.Feed.Hex.{felt_hex}
use strk20_indexer.Feed.Codec.Parse.{ok_or, and_then}

pub record AnchorRecord : Type 0 where
  pub block : ℕ
  pub block_hash : Felt
  pub storage_root : Felt
  pub class : Felt

abbrev pub max_anchors_bytes : ℕ
max_anchors_bytes = 32 * 1024 * 1024

-- a record may stand behind those read so far
unfoldable pub follows_last : List AnchorRecord → ℕ → Bool
follows_last [] block = true
follows_last (a ∷ []) block = ltb a.block block
follows_last (a ∷ b ∷ r) block = follows_last (b ∷ r) block

unfoldable pub is_nil : {A : Type 0} → List A → Bool
is_nil [] = true
is_nil (a ∷ r) = false

-- the check of `encode_anchors` over neighbours
unfoldable pub check_ascending : List AnchorRecord → Result (Unit {0})
check_ascending [] = ok tt
check_ascending (a ∷ []) = ok tt
check_ascending (a ∷ b ∷ r) =
    ensure (ltb a.block b.block) (malformed "anchors must be strictly ascending in block")
    >> check_ascending (b ∷ r)

-- the bytes of a text of ASCII characters
unfoldable pub ascii_bytes : String → Bytes
ascii_bytes String.[] = []
ascii_bytes (String.◌∷◌ ch s) = code ch ∷ ascii_bytes s

module _ (h : Host) where
  unfoldable pub anchor_text : AnchorRecord → String
  anchor_text a = str_append "{\"block\":" (
      str_append (decimal a.block) (
        str_append ",\"block_hash\":\"" (
          str_append (felt_hex h a.block_hash) (
            str_append "\",\"storage_root\":\"" (
              str_append (felt_hex h a.storage_root)
                (str_append "\",\"class\":\"" (str_append (felt_hex h a.class) "\"}")))))))

  unfoldable pub write_lines : List AnchorRecord → Bytes
  unfolding anchor_text ascii_bytes
  write_lines [] = []
  write_lines (a ∷ r) = ascii_bytes (anchor_text a) ++ newline ∷ write_lines r

  unfoldable pub encode_anchors : List AnchorRecord → Result Bytes
  encode_anchors records = do check_ascending records; ok (write_lines records)

module _ {Value : Type 0} (c : Crypto) (h : Host) (j : Json Value) where
  unfoldable pub anchor_field : Value → String → Result Felt
  anchor_field v k = do
    s ← ok_or (and_then (j.get v k) j.as_str) (malformed "anchors.ndjson: missing field")
    felt_from_hex c s

  unfoldable pub parse_anchor : Bytes → Result AnchorRecord
  unfolding is_nil
  parse_anchor raw = do
    ensure (not (is_nil raw)) (malformed "anchors.ndjson line is blank")
    v ← ok_or (j.from_str raw) json
    block ←
        ok_or (and_then (j.get v "block") j.as_u64) (malformed "anchors.ndjson: missing \"block\"")
    block_hash ← anchor_field v "block_hash"
    storage_root ← anchor_field v "storage_root"
    class ← anchor_field v "class"
    ok (record {
      block = block;
      block_hash = block_hash;
      storage_root = storage_root;
      class = class;
    })

  -- the loop over the lines, with the records read so far
  unfoldable pub parse_anchor_lines : List Bytes → List AnchorRecord → Result (List AnchorRecord)
  parse_anchor_lines [] out = ok out
  parse_anchor_lines (raw ∷ r) out = do
    record' ← parse_anchor raw
    ensure (follows_last out record'.block) (malformed "anchors.ndjson: block does not follow")
    parse_anchor_lines r (out ++ record' ∷ [])

  unfoldable pub parse_anchors : Bytes → Result (List AnchorRecord)
  unfolding is_nil
  parse_anchors payload = do
    ensure (leb (length payload) max_anchors_bytes) (malformed "anchors.ndjson is past the cap")
    ensure (h.is_utf8 payload) (malformed "anchors.ndjson is not utf-8")
    ensure (not (not (is_nil payload) && not (ends_with_newline payload)))
        (malformed "anchors.ndjson must end with a newline")
    parse_anchor_lines (lines payload) []
