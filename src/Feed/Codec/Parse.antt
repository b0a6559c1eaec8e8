-- ===== src/Feed/Codec/Parse.antt =====
-- The decoding half of crates/feed/src/codec.rs.
use strk20_indexer.Prelude.{
  ℕ, ◌+◌, Bool, true, false, not, ◌||◌, Option, none, some, List, [], ◌∷◌, ◌++◌, String, length,
  ltb, ◌==◌, str_eq, if◌then◌else◌,
}
use strk20_indexer.Feed.Error.{FeedError, malformed, json, Result, ok, err, ◌>>=◌, ◌>>◌, ensure}
use strk20_indexer.Feed.Felt.{Felt, Crypto, felt_from_hex}
use strk20_indexer.Feed.Host.{Bytes, Host, Json, ends_with_newline, lines}
use strk20_indexer.Feed.Codec.{
  EventLine, Finality, l1, l2, BlockLine, EpochHeader, HeadHeader, Footer, Epoch, Head,
  format_version, kind_epoch, kind_head, check_structure,
}

-- `.ok_or_else(|| Malformed(..))`
abbrev pub ok_or {ℓ} : {A : Type ℓ} → Option A → FeedError → Result A
ok_or none e = err e
ok_or (some a) e = ok a

-- `.iter().map(f).collect::<Result<Vec<_>, _>>()`
unfoldable pub collect {ℓ κ} : {A : Type ℓ} {B : Type κ} → (A → Result B) → List A → Result (List B)
collect f [] = ok []
collect f (x ∷ r) = do y ← f x; ys ← collect f r; ok (y ∷ ys)

abbrev pub and_then {ℓ κ} : {A : Type ℓ} {B : Type κ} → Option A → (A → Option B) → Option B
and_then none f = none
and_then (some a) f = f a

-- `.unwrap_or_default()` of a string
abbrev or_empty : Option String → String
or_empty none = ""
or_empty (some s) = s

module _ {Value : Type 0} (c : Crypto) (j : Json Value) where
  unfoldable pub get_str : Value → String → Result String
  get_str v k = ok_or (and_then (j.get v k) j.as_str) (malformed "missing string field")

  unfoldable pub get_u64 : Value → String → Result ℕ
  get_u64 v k = ok_or (and_then (j.get v k) j.as_u64) (malformed "missing integer field")

  unfoldable pub get_felt : Value → String → Result Felt
  unfolding get_str
  get_felt v k = do s ← get_str v k; felt_from_hex c s

  value_felt : Value → Result Felt
  value_felt v = felt_from_hex c (or_empty (j.as_str v))

  parse_diff : Value → Result (Felt × Felt)
  unfolding value_felt
  parse_diff d = elim (j.as_array d) [
    | some (a ∷ b ∷ []) ↦ do slot ← value_felt a; value ← value_felt b; ok (slot, value)
    | _ ↦ err (malformed "bad diff pair")
  ]

  parse_felts : Value → Result (List Felt)
  unfolding collect value_felt
  parse_felts v = do xs ← ok_or (j.as_array v) (malformed "bad felt array"); collect value_felt xs

  parse_event : Value → Result EventLine
  unfolding parse_felts
  parse_event e = elim (j.as_array e) [
    | some (t0 ∷ t1 ∷ t2 ∷ t3 ∷ t4 ∷ []) ↦ do
      tx_index ← ok_or (j.as_u64 t0) (malformed "bad tx_index")
      event_index ← ok_or (j.as_u64 t1) (malformed "bad event_index")
      tx_hash ← value_felt t2
      keys ← parse_felts t3
      payload ← parse_felts t4
      ok (record {
        tx_index = tx_index;
        event_index = event_index;
        tx_hash = tx_hash;
        keys = keys;
        payload = payload;
      })
    | _ ↦ err (malformed "bad event tuple")
  ]

  parse_finality : Option String → Result (Option Finality)
  parse_finality none = ok none
  parse_finality (some s) =
      if str_eq s "l2"
      then ok (some l2)
      else if str_eq s "l1"
      then ok (some l1)
      else err (malformed "bad fin")

  parse_replaced_class : Option Value → Result (Option Felt)
  parse_replaced_class none = ok none
  parse_replaced_class (some rc) = do f ← value_felt rc; ok (some f)

  unfoldable pub parse_blk : Value → Result BlockLine
  unfolding parse_diff parse_event parse_finality parse_replaced_class
  parse_blk v = do
    diffs_v ← ok_or (and_then (j.get v "d") j.as_array) (malformed "missing d")
    diffs ← collect parse_diff diffs_v
    events_v ← ok_or (and_then (j.get v "e") j.as_array) (malformed "missing e")
    events ← collect parse_event events_v
    replaced_class ← parse_replaced_class (j.get v "rc")
    finality ← parse_finality (and_then (j.get v "fin") j.as_str)
    number ← get_u64 v "b"
    hash ← get_felt v "h"
    parent ← get_felt v "p"
    timestamp ← get_u64 v "ts"
    ok (record {
      number = number;
      hash = hash;
      parent = parent;
      timestamp = timestamp;
      diffs = diffs;
      events = events;
      replaced_class = replaced_class;
      finality = finality;
    })

  unfoldable pub parse_footer : Value → Result Footer
  unfolding get_u64 get_felt
  parse_footer v = do
    blocks ← get_u64 v "blocks"
    diffs ← get_u64 v "diffs"
    events ← get_u64 v "events"
    class ← get_felt v "class"
    ok (record { blocks = blocks; diffs = diffs; events = events; class = class })

-- the loop's variables
pub record Scan (Value : Type 0) : Type 0 where
  pub header : Option Value
  pub footer : Option Footer
  pub blocks : List BlockLine

pub record Parsed (Value : Type 0) : Type 0 where
  pub header : Value
  pub blocks : List BlockLine
  pub footer : Footer

abbrev pub is_some {ℓ} : {A : Type ℓ} → Option A → Bool
is_some none = false
is_some (some a) = true

unfoldable pub check_epoch_blocks : EpochHeader → List BlockLine → Result (Unit {0})
check_epoch_blocks header [] = ok tt
check_epoch_blocks header (b ∷ r) = do
  ensure (not (ltb b.number header.from || ltb header.to b.number))
      (malformed "block outside epoch range")
  ensure (not (is_some b.finality)) (malformed "epoch block carries fin")
  check_epoch_blocks header r

unfoldable pub check_head_blocks : HeadHeader → List BlockLine → Result (Unit {0})
check_head_blocks header [] = ok tt
check_head_blocks header (b ∷ r) = do
  ensure (is_some b.finality) (malformed "head block missing fin")
  ensure (not (ltb b.number header.tail_from)) (malformed "head block before tail_from")
  check_head_blocks header r

module _ {Value : Type 0} (c : Crypto) (h : Host) (j : Json Value) where
  scan_hdr : String → ℕ → Value → Scan Value → Result (Scan Value)
  scan_hdr expected_kind line_no v s = do
    ensure (line_no == 1) (malformed "hdr must be line 1")
    kind ← get_str c j v "kind"
    ensure (str_eq kind expected_kind) (malformed "unexpected kind")
    version ← get_u64 c j v "v"
    ensure (version == format_version) (malformed "unsupported format version")
    ok (record s { header = some v })

  scan_blk : Value → Scan Value → Result (Scan Value)
  scan_blk v s = do
    ensure (not (is_some s.footer)) (malformed "blk after end")
    b ← parse_blk c j v
    ok (record s { blocks = s.blocks ++ b ∷ [] })

  scan_end : Value → Scan Value → Result (Scan Value)
  scan_end v s = do
    ensure (not (is_some s.footer)) (malformed "duplicate end")
    f ← parse_footer c j v
    ok (record s { footer = some f })

  -- `match t`
  scan_record : String → ℕ → String → Value → Scan Value → Result (Scan Value)
  unfolding scan_hdr scan_blk scan_end
  scan_record expected_kind line_no t v s =
      if str_eq t "hdr"
      then scan_hdr expected_kind line_no v s
      else if str_eq t "blk"
      then scan_blk v s
      else if str_eq t "end"
      then scan_end v s
      else err (malformed "unknown t")

  unfoldable pub scan_line : String → ℕ → Bytes → Scan Value → Result (Scan Value)
  unfolding scan_record
  scan_line expected_kind line_no raw s = do
    v ← ok_or (j.from_str raw) json
    t ← get_str c j v "t"
    scan_record expected_kind line_no t v s

  unfoldable pub scan_lines : String → ℕ → List Bytes → Scan Value → Result (Scan Value)
  scan_lines expected_kind line_no [] s = ok s
  scan_lines expected_kind line_no (raw ∷ r) s = do
    s' ← scan_line expected_kind line_no raw s
    scan_lines expected_kind (line_no + 1) r s'

  unfoldable pub parse_lines : Bytes → String → Result (Parsed Value)
  parse_lines payload expected_kind = do
    ensure (h.is_utf8 payload) (malformed "payload is not utf-8")
    ensure (ends_with_newline payload) (malformed "payload must end with a newline")
    s ←
        scan_lines expected_kind 1 (lines payload)
          (record { header = none; footer = none; blocks = [] })
    header ← ok_or s.header (malformed "missing hdr")
    footer ← ok_or s.footer (malformed "missing end")
    check_structure s.blocks footer
    ok (record { header = header; blocks = s.blocks; footer = footer })

  unfoldable pub parse_prev : Option Value → Result (Option Bytes)
  parse_prev none = ok none
  parse_prev (some v) = if j.is_null v then ok none else elim (j.as_str v) [
    | none ↦ err (malformed "bad prev")
    | some s ↦ elim (h.hex_decode s) [
      | none ↦ err (malformed "bad prev hex")
      | some bytes ↦
          if length bytes == 32 then ok (some bytes) else err (malformed "prev must be 32 bytes")
    ]
  ]

  unfoldable pub parse_epoch : Bytes → Result Epoch
  parse_epoch payload = do
    parsed ← parse_lines payload kind_epoch
    prev ← parse_prev (j.get parsed.header "prev")
    chain_id ← get_str c j parsed.header "chain_id"
    pool ← get_felt c j parsed.header "pool"
    epoch ← get_u64 c j parsed.header "epoch"
    from ← get_u64 c j parsed.header "from"
    to ← get_u64 c j parsed.header "to"
    let header : EpochHeader = record {
      chain_id = chain_id;
      pool = pool;
      epoch = epoch;
      from = from;
      to = to;
      prev = prev;
    }
    check_epoch_blocks header parsed.blocks
    ok (record { header = header; blocks = parsed.blocks; footer = parsed.footer })

  unfoldable pub parse_head : Bytes → Result Head
  parse_head payload = do
    parsed ← parse_lines payload kind_head
    tail_from ← get_u64 c j parsed.header "tail_from"
    head ← get_u64 c j parsed.header "head"
    head_hash ← get_felt c j parsed.header "head_hash"
    l1_accepted ← get_u64 c j parsed.header "l1_accepted"
    let header : HeadHeader = record {
      tail_from = tail_from;
      head = head;
      head_hash = head_hash;
      l1_accepted = l1_accepted;
    }
    check_head_blocks header parsed.blocks
    ok (record { header = header; blocks = parsed.blocks; footer = parsed.footer })
