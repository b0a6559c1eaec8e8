-- ===== src/Feed/Snapshot/Valid.antt =====
-- What an accepted snapshot is, and what the ladder of checks binds it to.
use strk20_indexer.Prelude.{
  ℕ, ◌≤◌, ◌<◌, ◌≡◌, ◌≢◌, ◌∙◌, sym, ap, subst, true, not, ◌&&◌, ◌||◌, inl, inr, Option, none, some,
  List, [], ◌∷◌, ◌++◌, String, All, length, leb, leb→le, ltb→lt, ◌==◌, ==_iff, str_eq, eq_iff,
  arith, Bool-cases,
}
use strk20_indexer.Feed.Error.{malformed, json, Result, ok, err, >>=-eq-ok, ensure-eq-ok}
use strk20_indexer.Feed.Felt.{Felt, Crypto, felt_from_hex}
use strk20_indexer.Feed.Host.{Bytes, Host, Json, ends_with_newline, lines}
use strk20_indexer.Feed.Mpt.{tree_height}
use strk20_indexer.Feed.Mpt.Spec.{root_of}
use strk20_indexer.Feed.Mpt.Sorted.{value_at}
use strk20_indexer.Feed.Mpt.Root.{storage_root-eq-root_of}
use strk20_indexer.Feed.Codec.Parse.{ok_or, is_some, and_then}
use strk20_indexer.Feed.Codec.Valid.{Ascending, and_true}
use strk20_indexer.Feed.Manifest.{ManifestSnapshot}
use strk20_indexer.Feed.Snapshot.{
  SnapSlot, Snapshot, FeedIdentity, Rows, snapshot_version, kind_snapshot, snapshot_file_name,
  follows, parse_header, parse_slot, parse_end, parse_record, parse_rows, parse_body, parse,
  felt_field, u64_field, is_text, check_zst_hash, decode_snapshot_payload, slot_pairs,
  storage_root_of, verify_snapshot_payload,
}

-- a slot of a snapshot at block `basis`
pub record IsSlot (basis : ℕ) (s : SnapSlot) : Type 0 where
  pub nonzero : s.v ≢ 0
  pub written : s.w ≤ basis

abbrev pub AreSlots : ℕ → List SnapSlot → Type 0
AreSlots basis xs = Ascending (λ (s : SnapSlot). s.k) xs × All (IsSlot basis) xs

follows-All :
    (xs : List SnapSlot) (k : Felt)
    → Ascending (λ (s : SnapSlot). s.k) xs
    → follows xs k ≡ true
    → All (λ s. s.k < k) xs
unfolding follows
follows-All [] k a h = tt
follows-All (s ∷ []) k a h = (ltb→lt s.k k h, tt)
follows-All (s ∷ t ∷ r) k a h =
    let rest = follows-All (t ∷ r) k a.1 h in (omega (arith, a.0.0, rest.0), rest)

All-snoc {ℓ κ} :
    {A : Type ℓ} (P : A → Type κ) (xs : List A) (y : A) → All P xs → P y → All P (xs ++ y ∷ [])
All-snoc P [] y h p = (p, tt)
All-snoc P (x ∷ xs) y h p = (h.0, All-snoc P xs y h.1 p)

Ascending-snoc :
    (xs : List SnapSlot) (y : SnapSlot)
    → Ascending (λ (s : SnapSlot). s.k) xs
    → All (λ s. s.k < y.k) xs
    → Ascending (λ (s : SnapSlot). s.k) (xs ++ y ∷ [])
Ascending-snoc [] y a h = (tt, tt)
Ascending-snoc (x ∷ xs) y a h = (All-snoc _ xs y a.0 h.0, Ascending-snoc xs y a.1 h.1)

module _ {Value : Type 0} (c : Crypto) (j : Json Value) (basis : ℕ) where
  parse_slot-AreSlots :
      (v : Value) (rows : Rows) {rows' : Rows}
      → AreSlots basis rows.slots
      → parse_slot c j basis v rows ≡ ok rows'
      → AreSlots basis rows'.slots
  unfolding parse_slot
  parse_slot-AreSlots v rows {rows'} a q =
      let (e1, q1) = ensure-eq-ok (not (is_some rows.footer)) _ _ q in
      let (key, _, q2) = >>=-eq-ok (felt_field c j v "k") _ q1 in
      let (value, _, q3) = >>=-eq-ok (felt_field c j v "v") _ q2 in
      let (written, _, q4) = >>=-eq-ok (u64_field c j v "w") _ q3 in
      let (e5, q5) = ensure-eq-ok (not (value == 0)) _ _ q4 in
      let (e6, q6) = ensure-eq-ok (leb written basis) _ _ q5 in
      let (e7, q7) = ensure-eq-ok (follows rows.slots key) _ _ q6 in
      subst (λ (x : Result Rows). elim x [ ok y ↦ AreSlots basis y.slots | err _ ↦ Unit ]) q7
        (
          Ascending-snoc rows.slots _ a.0 (follows-All rows.slots key a.0 e7),
          All-snoc _ rows.slots _ a.1 (record { nonzero = ground arith; written = leb→le _ _ e6 }),
        )

  parse_record-AreSlots :
      (v : Value) (t : Option String) (rows : Rows) {rows' : Rows}
      → AreSlots basis rows.slots
      → parse_record c j basis v t rows ≡ ok rows'
      → AreSlots basis rows'.slots
  unfolding parse_record parse_end
  parse_record-AreSlots v none rows a q = absurd (cc)
  parse_record-AreSlots v (some t) rows {rows'} a q = elim (Bool-cases (str_eq t "s")) [
    | inl e ↦ parse_slot-AreSlots v rows a (rw e at q)
    | inr e ↦ elim (Bool-cases (str_eq t "end")) [
      | inr f ↦ absurd (cc (rw (e, f) at q))
      | inl f ↦
          let (n, _, q1) = >>=-eq-ok (u64_field c j v "slots") _ (rw (e, f) at q) in
          subst (λ (x : Result Rows). elim x [ ok y ↦ AreSlots basis y.slots | err _ ↦ Unit ]) q1 a
    ]
  ]

  parse_rows-AreSlots :
      (ls : List Bytes) (rows : Rows) {rows' : Rows}
      → AreSlots basis rows.slots
      → parse_rows c j basis ls rows ≡ ok rows'
      → AreSlots basis rows'.slots
  unfolding parse_rows
  parse_rows-AreSlots [] rows {rows'} a q =
      subst (λ (x : Result Rows). elim x [ ok y ↦ AreSlots basis y.slots | err _ ↦ Unit ]) q a
  parse_rows-AreSlots (raw ∷ r) rows a q =
      let (v, _, q1) = >>=-eq-ok (ok_or (j.from_str raw) json) _ q in
      let (next, e, q2) =
        >>=-eq-ok (parse_record c j basis v (and_then (j.get v "t") j.as_str) rows) _ q1 in
      parse_rows-AreSlots r next (parse_record-AreSlots v _ rows a e) q2

pub record IsSnapshot (s : Snapshot) : Type 0 where
  pub version : s.header.v ≡ snapshot_version
  pub kind : s.header.kind ≡ kind_snapshot
  pub slots : AreSlots s.header.block s.slots

module _ {Value : Type 0} (c : Crypto) (h : Host) (j : Json Value) where
  parse_body-IsSnapshot :
      (ls : List Bytes) {s : Snapshot} → parse_body c h j ls ≡ ok s → IsSnapshot s
  unfolding parse_body
  parse_body-IsSnapshot [] q = absurd (cc)
  parse_body-IsSnapshot (first ∷ r) q =
      let (hv, _, q1) = >>=-eq-ok (ok_or (j.from_str first) json) _ q in
      let (e2, q2) = ensure-eq-ok (is_text (and_then (j.get hv "t") j.as_str) "hdr") _ _ q1 in
      let (hd, _, q3) = >>=-eq-ok (parse_header c j hv) _ q2 in
      let (e4, q4) =
        ensure-eq-ok (not (not (hd.v == snapshot_version) || not (str_eq hd.kind kind_snapshot))) _
          _ q3 in
      let (rows, e5, q5) =
        >>=-eq-ok (parse_rows c j hd.block r (record { slots = []; footer = none })) _ q4 in
      let (declared, _, q6) =
        >>=-eq-ok (ok_or rows.footer (malformed "snapshot payload has no \"end\" record")) _ q5 in
      let (e7, q7) = ensure-eq-ok (declared == length rows.slots) _ _ q6 in
      subst (λ (x : Result Snapshot). elim x [ ok y ↦ IsSnapshot y | err _ ↦ Unit ]) q7
        (record {
          version = ground arith;
          kind = (eq_iff _ _).0 (ground arith);
          slots = parse_rows-AreSlots c j hd.block r _ (tt, tt) e5;
        })

  -- An accepted snapshot has the format's version and kind, and its slots ascend strictly, are not
  -- zero and were written at or below the basis block.
  pub parse-IsSnapshot :
      (payload : Bytes) (s : Snapshot) → parse c h j payload ≡ ok s → IsSnapshot s
  unfolding parse
  parse-IsSnapshot payload s q =
      let (e1, q1) = ensure-eq-ok (h.is_utf8 payload) _ _ q in
      let (e2, q2) = ensure-eq-ok (ends_with_newline payload) _ _ q1 in
      parse_body-IsSnapshot (lines payload) q2

  -- what the rings 1 to 4 bind a snapshot to
  pub record IsBound (payload : Bytes) (zst : String) (entry : ManifestSnapshot)
      (basis_hash : String) (expect : FeedIdentity) (s : Snapshot) : Type 0 where
    pub transport : zst ≡ entry.zst
    pub content : h.hex_encode (h.payload_sha256 payload) ≡ entry.hash
    pub formed : IsSnapshot s
    pub chain_id : s.header.chain_id ≡ expect.chain_id
    pub pool : s.header.pool ≡ expect.pool
    pub epoch : s.header.epoch ≡ entry.e
    pub block : s.header.block ≡ entry.block
    pub file : entry.file ≡ snapshot_file_name entry.e
    pub count : length s.slots ≡ entry.slots
    pub basis : s.header.epoch_hash ≡ basis_hash
    pub entry_basis : entry.epoch_hash ≡ basis_hash

  -- A decoded snapshot is the file that the manifest names, is about the expected chain and pool, and
  -- stands on the basis epoch.
  pub decode_snapshot_payload-IsBound :
      (payload : Bytes) (zst : String) (entry : ManifestSnapshot) (basis_hash : String)
      (expect : FeedIdentity) (s : Snapshot)
      → decode_snapshot_payload c h j payload zst entry basis_hash expect ≡ ok s
      → IsBound payload zst entry basis_hash expect s
  unfolding decode_snapshot_payload check_zst_hash
  decode_snapshot_payload-IsBound payload zst entry basis_hash expect s q =
      let (u, z, q1) = >>=-eq-ok (check_zst_hash c h j zst entry) _ q in
      let (z1, _) = ensure-eq-ok (str_eq zst entry.zst) _ _ z in
      let (e2, q2) =
        ensure-eq-ok (str_eq (h.hex_encode (h.payload_sha256 payload)) entry.hash) _ _ q1 in
      let (n, p, q3) = >>=-eq-ok (parse c h j payload) _ q2 in
      let (e4, q4) =
        ensure-eq-ok (str_eq n.header.chain_id expect.chain_id && n.header.pool == expect.pool) _ _
          q3 in
      let (e5, q5) =
        ensure-eq-ok (n.header.epoch == entry.e && n.header.block == entry.block) _ _ q4 in
      let (e6, q6) = ensure-eq-ok (str_eq entry.file (snapshot_file_name entry.e)) _ _ q5 in
      let (e7, q7) = ensure-eq-ok (length n.slots == entry.slots) _ _ q6 in
      let (e8, q8) =
        ensure-eq-ok (str_eq n.header.epoch_hash basis_hash && str_eq entry.epoch_hash basis_hash) _
          _ q7 in
      let same : n ≡ s = cc in
      let (a4, b4) = and_true (str_eq n.header.chain_id expect.chain_id) _ e4 in
      let (a5, b5) = and_true (n.header.epoch == entry.e) _ e5 in
      let (a8, b8) = and_true (str_eq n.header.epoch_hash basis_hash) _ e8 in
      rw (← same) (record {
        transport = (eq_iff _ _).0 z1;
        content = (eq_iff _ _).0 e2;
        formed = parse-IsSnapshot payload n p;
        chain_id = (eq_iff _ _).0 a4;
        pool = (==_iff _ _).0 b4;
        epoch = (==_iff _ _).0 a5;
        block = (==_iff _ _).0 b5;
        file = (eq_iff _ _).0 e6;
        count = (==_iff _ _).0 e7;
        basis = (eq_iff _ _).0 a8;
        entry_basis = (eq_iff _ _).0 b8;
      })

  -- A verified snapshot passes the rings before the root: it is the file of the manifest entry,
  -- well formed, of the expected chain and pool, and on the basis epoch. The root that its header
  -- and the entry declare is the commitment of the map that its slots stand for.
  pub verify_snapshot_payload_lem :
      (payload : Bytes) (zst : String) (entry : ManifestSnapshot) (basis_hash : String)
      (expect : FeedIdentity) (s : Snapshot)
      → verify_snapshot_payload c h j payload zst entry basis_hash expect ≡ ok s
      → IsBound payload zst entry basis_hash expect s
        × (s.header.storage_root ≡ root_of c tree_height (value_at (slot_pairs s)))
        × (felt_from_hex c entry.storage_root ≡ ok s.header.storage_root)
  unfolding verify_snapshot_payload storage_root_of
  verify_snapshot_payload_lem payload zst entry basis_hash expect s q =
      let (n, p, q1) =
        >>=-eq-ok (decode_snapshot_payload c h j payload zst entry basis_hash expect) _ q in
      let (d, e2, q2) = >>=-eq-ok (felt_from_hex c entry.storage_root) _ q1 in
      let (e3, q3) =
        ensure-eq-ok (storage_root_of c n == n.header.storage_root && storage_root_of c n == d) _ _
          q2 in
      let (a, b) = and_true (storage_root_of c n == n.header.storage_root) _ e3 in
      let same : n ≡ s = cc in
      rw (← same) (
        decode_snapshot_payload-IsBound payload zst entry basis_hash expect n p,
        sym ((==_iff _ _).0 a) ∙ storage_root-eq-root_of c (slot_pairs n),
        e2 ∙ ap ok (sym ((==_iff _ _).0 b) ∙ (==_iff _ _).0 a),
      )
