-- ===== src/Indexer/Recovery/Repeats.antt =====
-- The rate limit of the repeated warning.
use strk20_indexer.Prelude.{
  ℕ, ◌-◌, ◌≤◌, ◌<◌, ◌≡◌, ◌⊎◌, refl, ◌∙◌, ap, subst, inl, inr, Bool, true, false, Option, some,
  String, str_eq, eq_iff, Bool-cases, arith,
}
use strk20_indexer.Feed.Decimal.{decimal}
use strk20_indexer.Feed.Codec.Parse.{and_then}
use strk20_indexer.Map.{Meta, meta_get}
use strk20_indexer.Consumer.Number.{u64_max, parse_u64, parse_u64-decimal}
use strk20_indexer.Consumer.Reply.{Failure, Reply, done, failed}
use strk20_indexer.Consumer.Mem.Generation.{meta_get-insert_self}
use strk20_indexer.Consumer.Act.{◌>>=◌, give, after_look, after_step}
use strk20_indexer.Indexer.Store.{Store, IsStore}
use strk20_indexer.Indexer.Recovery.{logged_at_key, not_empty, is_due, tick, should_log_repeat}

parsed-not_empty : (t : String) (n : ℕ) → parse_u64 t ≡ some n → not_empty (some t) ≡ some t
unfolding parse_u64
parsed-not_empty t n q = elim (Bool-cases (str_eq t "")) [
  | inl x ↦ absurd (nothing (subst (λ u. parse_u64 u ≡ some n) ((eq_iff t "").0 x) q))
  | inr x ↦ rw x refl
]
  where
    nothing : parse_u64 "" ≡ some n → ⊥
    nothing e = cc

not_due : (t now interval : ℕ) → now - t < interval → is_due (some t) now interval ≡ false
not_due t now interval q = ground arith

module _ {Db : Type 0} (s : Store Db) (contents : Db → Meta) (law : IsStore s contents) where
  -- a tick at `t` is on record
  ticked :
      (t interval : ℕ) (db next : Db)
      → should_log_repeat s t interval db ≡ (done true, next)
      → meta_get logged_at_key (contents next) ≡ some (decimal t)
  unfolding should_log_repeat
  ticked t interval db next q = after_look (s.read logged_at_key) _ db q λ last a q1.
      after_step _ _ db q1
        λ _ k w q2. of (is_due (and_then (not_empty last) parse_u64) t interval) k w q2
    where
      of :
          (due : Bool) (k : Db)
          → tick s t due db ≡ (done tt, k)
          → give due k ≡ (done true, next)
          → meta_get logged_at_key (contents next) ≡ some (decimal t)
      of false k w e = absurd (cc)
      of true k w e =
          let same : k ≡ next = cc in
          subst (λ x. meta_get logged_at_key (contents x) ≡ some (decimal t)) same
            (ap (meta_get logged_at_key) (law.writes logged_at_key (decimal t) db k w)
              ∙ meta_get-insert_self logged_at_key (decimal t) (contents db))

  -- After a warning at the second `t` none is due before `interval` seconds have passed, and the
  -- database stays as it is; a read can fail.
  pub should_log_repeat-once :
      (t now interval : ℕ) (db next : Db)
      → t ≤ u64_max
      → now - t < interval
      → should_log_repeat s t interval db ≡ (done true, next)
      → (should_log_repeat s now interval next ≡ (done false, next))
        ⊎ ((e : Failure) × (should_log_repeat s now interval next ≡ (failed e, next)))
  unfolding should_log_repeat ◌>>=◌
  should_log_repeat-once t now interval db next b early q = of (s.read logged_at_key next) refl
    where
      of :
          (r : Reply (Option String))
          → s.read logged_at_key next ≡ r
          → (should_log_repeat s now interval next ≡ (done false, next))
            ⊎ ((e : Failure) × (should_log_repeat s now interval next ≡ (failed e, next)))
      of (failed e) x = inr (e, rw (should_log_repeat, ◌>>=◌, x) refl)
      of (done o) x =
          let found : o ≡ some (decimal t) =
            law.finds logged_at_key o next x ∙ ticked t interval db next q in
          let late : is_due (and_then (not_empty o) parse_u64) now interval ≡ false =
            ap (λ p. is_due (and_then (not_empty p) parse_u64) now interval) found
            ∙ ap (λ p. is_due (and_then p parse_u64) now interval)
                (parsed-not_empty (decimal t) t (parse_u64-decimal t b))
            ∙ ap (λ p. is_due p now interval) (parse_u64-decimal t b)
            ∙ not_due t now interval early in
          inl (rw (should_log_repeat, ◌>>=◌, x, late) refl)
