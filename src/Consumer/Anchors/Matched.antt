-- ===== src/Consumer/Anchors/Matched.antt =====
-- What a comparison with the published anchors shows when it finds nothing.
use strk20_indexer.Prelude.{
  ℕ, ◌+◌, ◌<◌, ◌≡◌, refl, sym, subst, inl, inr, Bool, true, ◌&&◌, Option, none, some, List, [], ◌∷◌,
  ◌++◌, All, keep, length, arith, ltb, leb, ◌==◌, ==_iff, if◌then◌else◌, Bool-cases,
}
use strk20_indexer.Feed.Error.{ok}
use strk20_indexer.Feed.Felt.{Felt, Crypto}
use strk20_indexer.Feed.Host.{Bytes, Host, Json}
use strk20_indexer.Feed.Mpt.{storage_root}
use strk20_indexer.Feed.Anchors.{AnchorRecord, parse_anchors, is_nil}
use strk20_indexer.Map.{meta_get}
use strk20_indexer.Consumer.Reply.{Reply, done, from_feed, with_value-eq-done}
use strk20_indexer.Consumer.Mem.{Inner, number_or_zero}
use strk20_indexer.Consumer.Mem.View.{block_hash, full_slot_set_as_of}
use strk20_indexer.Consumer.Act.{after_answer}
use strk20_indexer.Consumer.Apply.Epochs.{from_feed-eq-ok}
use strk20_indexer.Consumer.Anchors.{
  Problem, Tally, AnchorReport, root_problems, hash_problem, hash_problems, count_anchor,
  count_anchors, published_of, report_of, parse_fetched, verify_anchors,
}

is_nil-append : (xs ys : List Problem) → is_nil (xs ++ ys) ≡ true → (xs ≡ []) × (ys ≡ [])
unfolding is_nil
is_nil-append [] [] h = (refl, refl)
is_nil-append [] (y ∷ ys) h = absurd (cc)
is_nil-append (x ∷ xs) ys h = absurd (cc)

is_nil-eq : (xs : List Problem) → is_nil xs ≡ true → xs ≡ []
unfolding is_nil
is_nil-eq [] h = refl
is_nil-eq (x ∷ xs) h = absurd (cc)

is_nil-none : is_nil {A = Problem} [] ≡ true
unfolding is_nil
is_nil-none = refl

module _ (c : Crypto) (g : Inner) (head basis : ℕ) where
  -- the mirror agrees with an anchor
  pub record IsMatched (a : AnchorRecord) : Type 0 where
    pub root : storage_root c (full_slot_set_as_of a.block g) ≡ a.storage_root
    pub hash : (stored : Felt) → block_hash a.block g ≡ some stored → stored ≡ a.block_hash

  -- what is compared
  abbrev pub in_range : AnchorRecord → Bool
  in_range a = leb a.block head && leb basis a.block

  abbrev AllMatched : List AnchorRecord → Type 0
  AllMatched xs = All (λ a. in_range a ≡ true → IsMatched a) xs

  no_problems :
      (a : AnchorRecord)
      → root_problems c g head basis a ≡ []
      → hash_problems c g head basis a ≡ []
      → IsMatched a
  unfolding root_problems hash_problems
  no_problems a p q = record {
    root = elim (Bool-cases (storage_root c (full_slot_set_as_of a.block g) == a.storage_root)) [
      | inl e ↦ (==_iff _ _).0 e
      | inr e ↦ absurd (cc (rw (root_problems, e) at p))
    ];
    hash = λ stored e. agrees stored (subst (λ o. hash_problem c g head basis o a ≡ []) e q);
  }
    where
      agrees :
          (stored : Felt) → hash_problem c g head basis (some stored) a ≡ [] → stored ≡ a.block_hash
      agrees stored r = elim (Bool-cases (stored == a.block_hash)) [
        | inl e ↦ (==_iff _ _).0 e
        | inr e ↦ absurd (cc (rw e at r))
      ]

  count_anchor_lem :
      (a : AnchorRecord) (t : Tally)
      → is_nil (count_anchor c g head basis a t).problems ≡ true
      → (is_nil t.problems ≡ true) × (in_range a ≡ true → IsMatched a)
  unfolding count_anchor
  count_anchor_lem a t h = elim (Bool-cases (ltb head a.block)) [
    | inl x ↦ (rw (count_anchor, x) at h, λ y. absurd (ground arith))
    | inr x ↦ elim (Bool-cases (ltb a.block basis)) [
      | inl z ↦ (rw (count_anchor, x, z) at h, λ y. absurd (ground arith))
      | inr z ↦
          let (p, q) =
            is_nil-append t.problems
              (root_problems c g head basis a ++ hash_problems c g head basis a)
              (rw (count_anchor, x, z) at h) in
          let (u, v) =
            is_nil-append (root_problems c g head basis a) (hash_problems c g head basis a)
              (rw q nothing) in
          (rw p nothing, λ y. no_problems a u v)
    ]
  ]
    where
      nothing : is_nil {A = Problem} [] ≡ true
      nothing = is_nil-none

  count_anchor_checked :
      (a : AnchorRecord) (t : Tally)
      → (count_anchor c g head basis a t).checked ≡ t.checked + (if in_range a then 1 else 0)
  unfolding count_anchor
  count_anchor_checked a t = ground arith

  count_anchors_lem :
      (xs : List AnchorRecord) (t : Tally)
      → is_nil (count_anchors c g head basis xs t).problems ≡ true
      → (is_nil t.problems ≡ true) × AllMatched xs
  unfolding count_anchors
  count_anchors_lem [] t h = (h, tt)
  count_anchors_lem (a ∷ r) t h =
      let rest = count_anchors_lem r (count_anchor c g head basis a t) h in
      let first = count_anchor_lem a t rest.0 in (first.0, (first.1, rest.1))

  count_anchors_checked :
      (xs : List AnchorRecord) (t : Tally)
      → (count_anchors c g head basis xs t).checked ≡ t.checked + length (keep in_range xs)
  unfolding count_anchors
  count_anchors_checked [] t = omega arith
  count_anchors_checked (a ∷ r) t =
      ground
        (arith, count_anchors_checked r (count_anchor c g head basis a t), count_anchor_checked a t)

-- What a report with `all_ok` says: some published anchor lies in the range that the mirror covers,
-- and the mirror agrees with each that does.
pub record IsVerified (c : Crypto) (g : Inner) (xs : List AnchorRecord) (r : AnchorReport)
    : Type 0 where
  pub basis : ℕ
  pub is_basis : basis ≡ number_or_zero (meta_get "snapshot_basis" g.meta)
  pub is_head : r.head ≡ number_or_zero (meta_get "head_number" g.meta)
  pub some_checked : 0 < length (keep (in_range c g r.head basis) xs)
  pub matched : All (λ a. in_range c g r.head basis a ≡ true → IsMatched c g r.head basis a) xs

abbrev head_of : Inner → ℕ
head_of g = number_or_zero (meta_get "head_number" g.meta)

abbrev basis_of : Inner → ℕ
basis_of g = number_or_zero (meta_get "snapshot_basis" g.meta)

abbrev fresh : Tally
fresh = record { problems = []; checked = 0; pending = 0 }

&&-eq-true : {a b : Bool} → (a && b) ≡ true → (a ≡ true) × (b ≡ true)
&&-eq-true {a} {b} h = ground arith

report_of-IsVerified :
    (c : Crypto) (published : Option (List AnchorRecord)) (g : Inner)
    → (report_of c published g).all_ok ≡ true
    → IsVerified c g (published_of published) (report_of c published g)
unfolding report_of
report_of-IsVerified c published g h =
    let (clean, some_counted) = &&-eq-true h in
    let every =
      count_anchors_lem c g (head_of g) (basis_of g) (published_of published) fresh clean in
    record {
      basis = basis_of g;
      is_basis = refl;
      is_head = refl;
      some_checked =
          counted some_counted
            (count_anchors_checked c g (head_of g) (basis_of g) (published_of published) fresh);
      matched = every.1;
    }
  where
    counted : {n m : ℕ} → ltb 0 n ≡ true → n ≡ 0 + m → 0 < m
    counted {n} {m} x y = ground arith

empty : {c : Crypto} {g : Inner} {r : AnchorReport} → IsVerified c g [] r → ⊥
empty v = omega (arith, v.some_checked)

module _ {Value : Type 0} (c : Crypto) (h : Host) (j : Json Value) where
  -- A comparison with the published anchors that reports that all is well has read a log, which it
  -- could parse, and has compared at least one anchor. At every anchor that is not above the recorded
  -- head and not below the snapshot's basis, the root of the mirror's slot set is the published root,
  -- and the block's hash, if the mirror has the block, is the published hash. The store is unchanged.
  pub verify_anchors-IsVerified :
      (fetched : Reply (Option Bytes)) (g k : Inner) (r : AnchorReport)
      → verify_anchors c h j fetched g ≡ (done r, k)
      → r.all_ok ≡ true
      → (payload : Bytes) × (xs : List AnchorRecord) × (fetched ≡ done (some payload))
        × (parse_anchors c h j payload ≡ ok xs)
        × IsVerified c g xs r
        × (k ≡ g)
  unfolding verify_anchors
  verify_anchors-IsVerified fetched g k r q all_ok = after_answer _ _ g q λ bytes a1 q1.
      after_answer _ _ g q1 λ published a2 q2.
        let same : report_of c published g ≡ r = cc in
        let v = report_of-IsVerified c published g (rw same all_ok) in
        of bytes published a1 a2 (subst (IsVerified c g (published_of published)) same v) cc
    where
      of :
          (bytes : Option Bytes) (published : Option (List AnchorRecord))
          → fetched ≡ done bytes
          → parse_fetched c h j bytes ≡ done published
          → IsVerified c g (published_of published) r
          → k ≡ g
          → (payload : Bytes) × (xs : List AnchorRecord) × (fetched ≡ done (some payload))
            × (parse_anchors c h j payload ≡ ok xs)
            × IsVerified c g xs r
            × (k ≡ g)
      of none published a b v e =
          let nothing : none ≡ published = cc in
          absurd (empty (subst (λ o. IsVerified c g (published_of o) r) (sym nothing) v))
      of (some payload) published a b v e =
          let (xs, x, y) = with_value-eq-done (from_feed (parse_anchors c h j payload)) _ b in
          let found : some xs ≡ published = cc in
          (
            payload,
            xs,
            a,
            from_feed-eq-ok _ x,
            subst (λ o. IsVerified c g (published_of o) r) (sym found) v,
            e,
          )
