-- ===== src/Feed/Snapshot.antt =====
-- crates/feed/src/snapshot.rs: the snapshot format and the ladder of its checks.
pub mod Valid
use Prim.Native.String.{◌++◌ as str_append}
use strk20_indexer.Prelude.{
  ℕ, ◌+◌, Bool, true, false, not, ◌&&◌, ◌||◌, Option, none, some, List, [], ◌∷◌, ◌++◌, map, String,
  length, ltb, leb, ◌==◌, str_eq, if◌then◌else◌,
}
use strk20_indexer.Feed.Error.{
  FeedError, malformed, json, chain_broken, Result, ok, err, ◌>>=◌, ◌>>◌, ensure,
}
use strk20_indexer.Feed.Felt.{Felt, Crypto, felt_from_hex}
use strk20_indexer.Feed.Host.{Bytes, Host, Json, ends_with_newline, lines}
use strk20_indexer.Feed.Decimal.{decimal8}
use strk20_indexer.Feed.Mpt.{storage_root}
use strk20_indexer.Feed.Codec.Parse.{ok_or, is_some, and_then}
use strk20_indexer.Feed.Manifest.{ManifestSnapshot}

abbrev pub snapshot_version : ℕ
snapshot_version = 1

abbrev pub kind_snapshot : String
kind_snapshot = "strk20-snapshot"

pub record SnapshotHeader : Type 0 where
  pub v : ℕ
  pub kind : String
  pub chain_id : String
  pub pool : Felt
  pub epoch : ℕ
  pub block : ℕ
  pub epoch_hash : String
  pub storage_root : Felt
  pub class : Felt

pub record SnapSlot : Type 0 where
  pub k : Felt
  pub v : Felt
  pub w : ℕ

pub record Snapshot : Type 0 where
  pub header : SnapshotHeader
  pub slots : List SnapSlot

pub record FeedIdentity : Type 0 where
  pub chain_id : String
  pub pool : Felt

unfoldable pub snapshot_file_name : ℕ → String
snapshot_file_name e = str_append "snapshots/" (str_append (decimal8 e) ".strk20s.zst")

-- the value of `slots.last()` allows `k` next
unfoldable pub follows : List SnapSlot → Felt → Bool
follows [] k = true
follows (s ∷ []) k = ltb s.k k
follows (s ∷ t ∷ r) k = follows (t ∷ r) k

-- the loop's variables
pub record Rows : Type 0 where
  pub slots : List SnapSlot
  pub footer : Option ℕ

module _ {Value : Type 0} (c : Crypto) (j : Json Value) where
  unfoldable pub str_field : Value → String → Result String
  str_field v key = ok_or (and_then (j.get v key) j.as_str) (malformed "missing string field")

  unfoldable pub u64_field : Value → String → Result ℕ
  u64_field v key = ok_or (and_then (j.get v key) j.as_u64) (malformed "missing integer field")

  unfoldable pub felt_field : Value → String → Result Felt
  unfolding str_field
  felt_field v key = do s ← str_field v key; felt_from_hex c s

  unfoldable pub parse_header : Value → Result SnapshotHeader
  parse_header hv = do
    v ← u64_field hv "v"
    kind ← str_field hv "kind"
    chain_id ← str_field hv "chain_id"
    pool ← felt_field hv "pool"
    epoch ← u64_field hv "epoch"
    block ← u64_field hv "block"
    epoch_hash ← str_field hv "epoch_hash"
    root ← felt_field hv "storage_root"
    class ← felt_field hv "class"
    ok (record {
      v = v;
      kind = kind;
      chain_id = chain_id;
      pool = pool;
      epoch = epoch;
      block = block;
      epoch_hash = epoch_hash;
      storage_root = root;
      class = class;
    })

  unfoldable pub parse_slot : ℕ → Value → Rows → Result Rows
  parse_slot basis v rows = do
    ensure (not (is_some rows.footer)) (malformed "slot record after the \"end\" record")
    key ← felt_field v "k"
    value ← felt_field v "v"
    written ← u64_field v "w"
    ensure (not (value == 0))
        (malformed "zero-valued slots are never emitted (Cairo map semantics)")
    ensure (leb written basis) (malformed "write block is above the basis")
    ensure (follows rows.slots key) (malformed "slot does not follow")
    ok (record rows { slots = rows.slots ++ record { k = key; v = value; w = written } ∷ [] })

  unfoldable pub parse_end : Value → Rows → Result Rows
  parse_end v rows = do n ← u64_field v "slots"; ok (record rows { footer = some n })

  -- `match v.get("t").and_then(Value::as_str)`
  unfoldable pub parse_record : ℕ → Value → Option String → Rows → Result Rows
  parse_record basis v none rows = err (malformed "unknown record type")
  parse_record basis v (some t) rows =
      if str_eq t "s"
      then parse_slot basis v rows
      else if str_eq t "end"
      then parse_end v rows
      else err (malformed "unknown record type")

  unfoldable pub parse_rows : ℕ → List Bytes → Rows → Result Rows
  parse_rows basis [] rows = ok rows
  parse_rows basis (raw ∷ r) rows = do
    v ← ok_or (j.from_str raw) json
    rows' ← parse_record basis v (and_then (j.get v "t") j.as_str) rows
    parse_rows basis r rows'

is_text : Option String → String → Bool
is_text none t = false
is_text (some s) t = str_eq s t

module _ {Value : Type 0} (c : Crypto) (h : Host) (j : Json Value) where
  unfoldable pub parse_body : List Bytes → Result Snapshot
  unfolding is_text
  parse_body [] = err (malformed "snapshot payload is empty")
  parse_body (first ∷ r) = do
    hv ← ok_or (j.from_str first) json
    ensure (is_text (and_then (j.get hv "t") j.as_str) "hdr")
        (malformed "snapshot line 1 must be the \"hdr\" record")
    header ← parse_header c j hv
    ensure (not (not (header.v == snapshot_version) || not (str_eq header.kind kind_snapshot)))
        (malformed "snapshot kind or version")
    rows ← parse_rows c j header.block r (record { slots = []; footer = none })
    declared ← ok_or rows.footer (malformed "snapshot payload has no \"end\" record")
    ensure (declared == length rows.slots)
        (malformed "snapshot footer declares another number of slots")
    ok (record { header = header; slots = rows.slots })

  unfoldable pub parse : Bytes → Result Snapshot
  parse payload = do
    ensure (h.is_utf8 payload) (malformed "snapshot payload is not utf-8")
    ensure (ends_with_newline payload) (malformed "snapshot payload must end with a newline")
    parse_body (lines payload)

  unfoldable pub check_zst_hash : String → ManifestSnapshot → Result (Unit {0})
  check_zst_hash zst_sha256 entry = do
    ensure (str_eq zst_sha256 entry.zst) (malformed "FEED_HASH_MISMATCH: snapshot file")
    ok tt

  unfoldable pub decode_snapshot_payload :
      Bytes → String → ManifestSnapshot → String → FeedIdentity → Result Snapshot
  decode_snapshot_payload payload zst_sha256 entry basis_epoch_hash expect = do
    check_zst_hash zst_sha256 entry
    ensure (str_eq (h.hex_encode (h.payload_sha256 payload)) entry.hash)
        (malformed "FEED_HASH_MISMATCH: snapshot payload")
    snap ← parse payload
    ensure (str_eq snap.header.chain_id expect.chain_id && snap.header.pool == expect.pool)
        (malformed "CHAIN_MISMATCH: snapshot is stamped another chain or pool")
    ensure (snap.header.epoch == entry.e && snap.header.block == entry.block)
        (malformed "FEED_MALFORMED: snapshot header names another epoch or block")
    ensure (str_eq entry.file (snapshot_file_name entry.e))
        (malformed "FEED_MALFORMED: manifest snapshot file")
    ensure (length snap.slots == entry.slots) (malformed "FEED_MALFORMED: snapshot slot count")
    ensure
        (str_eq snap.header.epoch_hash basis_epoch_hash && str_eq entry.epoch_hash basis_epoch_hash)
        (chain_broken entry.e basis_epoch_hash snap.header.epoch_hash)
    ok snap

unfoldable pub slot_pairs : Snapshot → List (Felt × Felt)
slot_pairs s = map (λ x. (x.k, x.v)) s.slots

unfoldable pub storage_root_of : Crypto → Snapshot → Felt
unfolding slot_pairs
storage_root_of c s = storage_root c (slot_pairs s)

module _ {Value : Type 0} (c : Crypto) (h : Host) (j : Json Value) where
  unfoldable pub verify_snapshot_payload :
      Bytes → String → ManifestSnapshot → String → FeedIdentity → Result Snapshot
  verify_snapshot_payload payload zst_sha256 entry basis_epoch_hash expect = do
    snap ← decode_snapshot_payload c h j payload zst_sha256 entry basis_epoch_hash expect
    let computed = storage_root_of c snap
    declared ← felt_from_hex c entry.storage_root
    ensure (computed == snap.header.storage_root && computed == declared)
        (malformed "SNAPSHOT_ROOT_MISMATCH")
    ok snap
