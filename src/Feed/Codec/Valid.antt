-- ===== src/Feed/Codec/Valid.antt =====
-- What the parsers of epoch and head files guarantee of an accepted payload.
use strk20_indexer.Prelude.{
  ℕ, ◌+◌, ◌≤◌, ◌<◌, ◌≡◌, ◌≢◌, subst, refl, Bool, true, not, ◌&&◌, ◌||◌, Option, none, List, String,
  [], ◌∷◌, length, ltb, ltb→lt, ==_iff, ◌==◌, All, arith,
}
use strk20_indexer.Feed.Error.{malformed, Result, ok, err, >>=-eq-ok, ensure-eq-ok}
use strk20_indexer.Feed.Felt.{Felt, Crypto}
use strk20_indexer.Feed.Host.{Bytes, Host, Json, ends_with_newline, lines}
use strk20_indexer.Feed.Codec.{
  EventLine, Finality, BlockLine, Footer, Epoch, EpochHeader, Head, HeadHeader, windows_all, all,
  slot_lt, event_lt, assert_invariants, check_order, check_rows, check_structure, count_diffs,
  count_events, kind_epoch, kind_head,
}
use strk20_indexer.Feed.Codec.Parse.{
  Parsed, ok_or, is_some, scan_lines, parse_prev, get_str, get_u64, get_felt, parse_lines,
  parse_epoch, parse_head, check_epoch_blocks, check_head_blocks,
}

-- every element is below every later one
abbrev pub Ascending {ℓ} : {A : Type ℓ} → (A → ℕ) → List A → Type 0
Ascending f [] = Unit
Ascending f (x ∷ r) = All (λ y. f x < f y) r × Ascending f r

-- adjacent numbers are parent and child
abbrev pub Linked : List BlockLine → Type 0
Linked [] = Unit
Linked (a ∷ []) = Unit
Linked (a ∷ b ∷ r) = (b.number ≡ a.number + 1 → b.parent ≡ a.hash) × Linked (b ∷ r)

pub record IsBlock (b : BlockLine) : Type 0 where
  -- no slot is written twice in a block
  pub slots : Ascending (λ (d : Felt × Felt). d.0) b.diffs
  pub emitted : Ascending (λ (e : EventLine). e.event_index) b.events

pub and_true : (a b : Bool) → (a && b) ≡ true → (a ≡ true) × (b ≡ true)
and_true a b h = ground arith

module _ {ℓ} {A : Type ℓ} (f : A → ℕ) where
  Ascending_below :
      (x y : A) (r : List A) → f x < f y → All (λ z. f y < f z) r → All (λ z. f x < f z) r
  Ascending_below x y [] h k = tt
  Ascending_below x y (z ∷ r) h k = (omega (arith, k.0), Ascending_below x y r h k.1)

  windows-Ascending :
      (xs : List A) → windows_all (λ x y. ltb (f x) (f y)) xs ≡ true → Ascending f xs
  windows-Ascending [] h = tt
  windows-Ascending (x ∷ []) h = (tt, tt)
  windows-Ascending (x ∷ y ∷ r) h =
      let (l, rest) = and_true (ltb (f x) (f y)) _ h in
      let tail = windows-Ascending (y ∷ r) rest in
      ((ltb→lt _ _ l, Ascending_below x y r (ltb→lt _ _ l) tail.0), tail)

check_rows-IsBlock : (bs : List BlockLine) → check_rows bs ≡ ok tt → All IsBlock bs
unfolding check_rows
check_rows-IsBlock [] h = tt
check_rows-IsBlock (b ∷ r) h =
    let (e1, h1) = ensure-eq-ok (windows_all slot_lt b.diffs) _ _ h in
    let (e2, h2) = ensure-eq-ok (windows_all event_lt b.events) _ _ h1 in
    (
      record {
        slots = windows-Ascending (λ (d : Felt × Felt). d.0) b.diffs e1;
        emitted = windows-Ascending (λ (e : EventLine). e.event_index) b.events e2;
      },
      check_rows-IsBlock r h2,
    )

check_order_lem :
    (bs : List BlockLine)
    → check_order bs ≡ ok tt
    → (windows_all (λ (a : BlockLine) (b : BlockLine). ltb a.number b.number) bs ≡ true) × Linked bs
unfolding check_order
check_order_lem [] h = (refl, tt)
check_order_lem (a ∷ []) h = (refl, tt)
check_order_lem (a ∷ b ∷ r) h =
    let (e1, h1) = ensure-eq-ok (ltb a.number b.number) _ _ h in
    let (e2, h2) =
      ensure-eq-ok (not ((b.number == a.number + 1) && not (b.parent == a.hash))) _ _ h1 in
    let (w, l) = check_order_lem (b ∷ r) h2 in (rw (e1, w) refl, ((λ e. ground arith), l))

pub record IsBody (blocks : List BlockLine) (footer : Footer) : Type 0 where
  pub ascending : Ascending (λ (b : BlockLine). b.number) blocks
  pub linked : Linked blocks
  pub rows : All IsBlock blocks
  pub block_count : footer.blocks ≡ length blocks
  pub diff_count : footer.diffs ≡ count_diffs blocks
  pub event_count : footer.events ≡ count_events blocks

check_structure-IsBody :
    (bs : List BlockLine) (f : Footer) → check_structure bs f ≡ ok tt → IsBody bs f
unfolding check_structure
check_structure-IsBody bs f h =
    let (e1, h1) = ensure-eq-ok (f.blocks == length bs) _ _ h in
    let (e2, h2) = ensure-eq-ok (f.diffs == count_diffs bs && f.events == count_events bs) _ _ h1 in
    let (d, e) = and_true (f.diffs == count_diffs bs) _ e2 in
    let (u, o, r) = >>=-eq-ok (check_order bs) _ h2 in
    record {
      ascending = windows-Ascending (λ (b : BlockLine). b.number) bs (check_order_lem bs o).0;
      linked = (check_order_lem bs o).1;
      rows = check_rows-IsBlock bs r;
      block_count = (==_iff _ _).0 e1;
      diff_count = (==_iff _ _).0 d;
      event_count = (==_iff _ _).0 e;
    }

check_rows-all :
    (bs : List BlockLine)
    → check_rows bs ≡ ok tt
    → all (λ (b : BlockLine). windows_all slot_lt b.diffs && windows_all event_lt b.events) bs
      ≡ true
unfolding check_rows
check_rows-all [] h = refl
check_rows-all (b ∷ r) h =
    let (e1, h1) = ensure-eq-ok (windows_all slot_lt b.diffs) _ _ h in
    let (e2, h2) = ensure-eq-ok (windows_all event_lt b.events) _ _ h1 in
    rw (e1, e2, check_rows-all r h2) refl

check_structure-assert_invariants :
    (bs : List BlockLine) (f : Footer) → check_structure bs f ≡ ok tt → assert_invariants bs ≡ true
unfolding check_structure assert_invariants
check_structure-assert_invariants bs f h =
    let (e1, h1) = ensure-eq-ok (f.blocks == length bs) _ _ h in
    let (e2, h2) = ensure-eq-ok (f.diffs == count_diffs bs && f.events == count_events bs) _ _ h1 in
    let (u, o, r) = >>=-eq-ok (check_order bs) _ h2 in
    rw ((check_order_lem bs o).0, check_rows-all bs r) refl

-- a block of an epoch: in its range, and with no finality of its own
pub record InEpoch (h : EpochHeader) (b : BlockLine) : Type 0 where
  pub above : h.from ≤ b.number
  pub below : b.number ≤ h.to
  pub final : b.finality ≡ none

-- a block of the head file: with a finality, and in the tail
pub record InTail (h : HeadHeader) (b : BlockLine) : Type 0 where
  pub above : h.tail_from ≤ b.number
  pub labelled : b.finality ≢ none

pub record IsEpoch (e : Epoch) : Type 0 where
  pub body : IsBody e.blocks e.footer
  pub ranged : All (InEpoch e.header) e.blocks

pub record IsHead (e : Head) : Type 0 where
  pub body : IsBody e.blocks e.footer
  pub ranged : All (InTail e.header) e.blocks

check_epoch_blocks-InEpoch :
    (hd : EpochHeader) (bs : List BlockLine)
    → check_epoch_blocks hd bs ≡ ok tt
    → All (InEpoch hd) bs
unfolding check_epoch_blocks
check_epoch_blocks-InEpoch hd [] q = tt
check_epoch_blocks-InEpoch hd (b ∷ r) q =
    let (e1, q1) = ensure-eq-ok (not (ltb b.number hd.from || ltb hd.to b.number)) _ _ q in
    let (e2, q2) = ensure-eq-ok (not (is_some b.finality)) _ _ q1 in
    (
      record { above = ground arith; below = ground arith; final = not_some b.finality e2 },
      check_epoch_blocks-InEpoch hd r q2,
    )
  where
    not_some : (o : Option Finality) → not (is_some o) ≡ true → o ≡ none
    not_some o e = ground arith

check_head_blocks-InTail :
    (hd : HeadHeader) (bs : List BlockLine) → check_head_blocks hd bs ≡ ok tt → All (InTail hd) bs
unfolding check_head_blocks
check_head_blocks-InTail hd [] q = tt
check_head_blocks-InTail hd (b ∷ r) q =
    let (e1, q1) = ensure-eq-ok (is_some b.finality) _ _ q in
    let (e2, q2) = ensure-eq-ok (not (ltb b.number hd.tail_from)) _ _ q1 in
    (
      record { above = ground arith; labelled = is_there b.finality e1 },
      check_head_blocks-InTail hd r q2,
    )
  where
    is_there : (o : Option Finality) → is_some o ≡ true → o ≢ none
    is_there o e = ground arith

module _ {Value : Type 0} (c : Crypto) (h : Host) (j : Json Value) where
  parse_lines-check :
      (payload : Bytes) (kind : String) (p : Parsed Value)
      → parse_lines c h j payload kind ≡ ok p
      → check_structure p.blocks p.footer ≡ ok tt
  unfolding parse_lines
  parse_lines-check payload kind p q =
      let (e1, q1) = ensure-eq-ok (h.is_utf8 payload) _ _ q in
      let (e2, q2) = ensure-eq-ok (ends_with_newline payload) _ _ q1 in
      let (s, _, q3) = >>=-eq-ok (scan_lines c h j kind 1 (lines payload) _) _ q2 in
      let (header, _, q4) = >>=-eq-ok (ok_or s.header (malformed "missing hdr")) _ q3 in
      let (footer, _, q5) = >>=-eq-ok (ok_or s.footer (malformed "missing end")) _ q4 in
      let (u, e, q6) = >>=-eq-ok (check_structure s.blocks footer) _ q5 in
      subst
        (λ (x : Result (Parsed Value)). elim x [
          | ok y ↦ check_structure y.blocks y.footer ≡ ok tt
          | err _ ↦ Unit
        ])
        q6 e

  module _ (payload : Bytes) (e : Epoch) (q : parse_epoch c h j payload ≡ ok e) where
    epoch_checks :
        (check_structure e.blocks e.footer ≡ ok tt) × (check_epoch_blocks e.header e.blocks ≡ ok tt)
    unfolding parse_epoch
    epoch_checks =
        let (p, e1, q1) = >>=-eq-ok (parse_lines c h j payload kind_epoch) _ q in
        let (prev, _, q2) = >>=-eq-ok (parse_prev c h j (j.get p.header "prev")) _ q1 in
        let (chain_id, _, q3) = >>=-eq-ok (get_str c j p.header "chain_id") _ q2 in
        let (pool, _, q4) = >>=-eq-ok (get_felt c j p.header "pool") _ q3 in
        let (epoch, _, q5) = >>=-eq-ok (get_u64 c j p.header "epoch") _ q4 in
        let (from, _, q6) = >>=-eq-ok (get_u64 c j p.header "from") _ q5 in
        let (to, _, q7) = >>=-eq-ok (get_u64 c j p.header "to") _ q6 in
        let (u, e8, q8) = >>=-eq-ok (check_epoch_blocks _ p.blocks) _ q7 in
        subst
          (λ (x : Result Epoch). elim x [
            | ok y ↦
                (check_structure y.blocks y.footer ≡ ok tt)
                × (check_epoch_blocks y.header y.blocks ≡ ok tt)
            | err _ ↦ Unit
          ])
          q8 (parse_lines-check payload kind_epoch p e1, e8)

    -- An accepted epoch payload is well formed: its blocks ascend and are linked where they are
    -- adjacent, each block writes a slot once and has its events in order, the footer counts them,
    -- and every block lies in the epoch's range and carries no finality.
    pub parse_epoch_lem : IsEpoch e
    parse_epoch_lem = record {
      body = check_structure-IsBody e.blocks e.footer epoch_checks.0;
      ranged = check_epoch_blocks-InEpoch e.header e.blocks epoch_checks.1;
    }

    -- The blocks of an accepted epoch meet what the encoder asserts of the blocks that it is
    -- given.
    pub parse_epoch-assert_invariants : assert_invariants e.blocks ≡ true
    parse_epoch-assert_invariants =
        check_structure-assert_invariants e.blocks e.footer epoch_checks.0

  module _ (payload : Bytes) (e : Head) (q : parse_head c h j payload ≡ ok e) where
    head_checks :
        (check_structure e.blocks e.footer ≡ ok tt) × (check_head_blocks e.header e.blocks ≡ ok tt)
    unfolding parse_head
    head_checks =
        let (p, e1, q1) = >>=-eq-ok (parse_lines c h j payload kind_head) _ q in
        let (tail_from, _, q3) = >>=-eq-ok (get_u64 c j p.header "tail_from") _ q1 in
        let (head, _, q4) = >>=-eq-ok (get_u64 c j p.header "head") _ q3 in
        let (head_hash, _, q5) = >>=-eq-ok (get_felt c j p.header "head_hash") _ q4 in
        let (l1_accepted, _, q6) = >>=-eq-ok (get_u64 c j p.header "l1_accepted") _ q5 in
        let (u, e8, q8) = >>=-eq-ok (check_head_blocks _ p.blocks) _ q6 in
        subst
          (λ (x : Result Head). elim x [
            | ok y ↦
                (check_structure y.blocks y.footer ≡ ok tt)
                × (check_head_blocks y.header y.blocks ≡ ok tt)
            | err _ ↦ Unit
          ])
          q8 (parse_lines-check payload kind_head p e1, e8)

    -- An accepted head payload is well formed, and every block lies in the tail and has a finality.
    pub parse_head_lem : IsHead e
    parse_head_lem = record {
      body = check_structure-IsBody e.blocks e.footer head_checks.0;
      ranged = check_head_blocks-InTail e.header e.blocks head_checks.1;
    }
