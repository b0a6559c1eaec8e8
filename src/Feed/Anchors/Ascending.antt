-- ===== src/Feed/Anchors/Ascending.antt =====
-- The anchor log holds its records in the order of their blocks, for the reader and the writer.
use strk20_indexer.Prelude.{
  ◌<◌, ◌≡◌, refl, true, not, ◌&&◌, List, [], ◌∷◌, ◌++◌, ltb, ltb→lt, lt→ltb, leb, length, subst,
}
use strk20_indexer.Feed.Error.{ok, >>=-eq-ok, ensure-eq-ok}
use strk20_indexer.Feed.Felt.{Crypto}
use strk20_indexer.Feed.Host.{Bytes, Host, Json, ends_with_newline, lines}
use strk20_indexer.Feed.Anchors.{
  AnchorRecord, max_anchors_bytes, is_nil, follows_last, check_ascending, encode_anchors,
  write_lines, parse_anchor, parse_anchor_lines, parse_anchors,
}

-- each block is below the next
abbrev pub IsAscending : List AnchorRecord → Type 0
IsAscending [] = Unit
IsAscending (a ∷ []) = Unit
IsAscending (a ∷ b ∷ r) = (a.block < b.block) × IsAscending (b ∷ r)

IsAscending-snoc :
    (out : List AnchorRecord) (a : AnchorRecord)
    → IsAscending out
    → follows_last out a.block ≡ true
    → IsAscending (out ++ a ∷ [])
unfolding follows_last
IsAscending-snoc [] a h f = tt
IsAscending-snoc (x ∷ []) a h f = (ltb→lt _ _ f, tt)
IsAscending-snoc (x ∷ y ∷ r) a h f = (h.0, IsAscending-snoc (y ∷ r) a h.1 f)

check_ascending-IsAscending : (xs : List AnchorRecord) → check_ascending xs ≡ ok tt → IsAscending xs
unfolding check_ascending
check_ascending-IsAscending [] q = tt
check_ascending-IsAscending (a ∷ []) q = tt
check_ascending-IsAscending (a ∷ b ∷ r) q =
    let (e, q1) = ensure-eq-ok (ltb a.block b.block) _ _ q in
    (ltb→lt _ _ e, check_ascending-IsAscending (b ∷ r) q1)

IsAscending-check : (xs : List AnchorRecord) → IsAscending xs → check_ascending xs ≡ ok tt
unfolding check_ascending
IsAscending-check [] h = refl
IsAscending-check (a ∷ []) h = refl
IsAscending-check (a ∷ b ∷ r) h = rw (lt→ltb _ _ h.0) (IsAscending-check (b ∷ r) h.1)

module _ {Value : Type 0} (c : Crypto) (h : Host) (j : Json Value) where
  parse_anchor_lines-IsAscending :
      (ls : List Bytes) (out records : List AnchorRecord)
      → IsAscending out
      → parse_anchor_lines c h j ls out ≡ ok records
      → IsAscending records
  unfolding parse_anchor_lines
  parse_anchor_lines-IsAscending [] out records i q =
      let e : out ≡ records = cc in subst IsAscending e i
  parse_anchor_lines-IsAscending (raw ∷ r) out records i q =
      let (a, _, q1) = >>=-eq-ok (parse_anchor c h j raw) _ q in
      let (e, q2) = ensure-eq-ok (follows_last out a.block) _ _ q1 in
      parse_anchor_lines-IsAscending r (out ++ a ∷ []) records (IsAscending-snoc out a i e) q2

  -- A log that is read holds its records strictly ascending by block, so the writer, which answers
  -- an error for any other order, takes them.
  pub parse_anchors-encode_anchors :
      (payload : Bytes) (records : List AnchorRecord)
      → parse_anchors c h j payload ≡ ok records
      → IsAscending records × (encode_anchors h records ≡ ok (write_lines h records))
  unfolding parse_anchors encode_anchors
  parse_anchors-encode_anchors payload records q =
      let (_, q1) = ensure-eq-ok (leb (length payload) max_anchors_bytes) _ _ q in
      let (_, q2) = ensure-eq-ok (h.is_utf8 payload) _ _ q1 in
      let (_, q3) =
        ensure-eq-ok (not (not (is_nil payload) && not (ends_with_newline payload))) _ _ q2 in
      let i = parse_anchor_lines-IsAscending (lines payload) [] records tt q3 in
      (i, rw (IsAscending-check records i) refl)
