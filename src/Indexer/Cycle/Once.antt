-- ===== src/Indexer/Cycle/Once.antt =====
-- A divergence gets one recovery attempt, in a cycle and over cycles.
use strk20_indexer.Prelude.{
  ℕ, zero, suc, ◌+◌, ◌≤◌, ◌≡◌, ◌⊎◌, refl, ◌∙◌, ap, subst, inl, inr, Bool, true, false, Option, none,
  some, List, [], ◌∷◌, All, length, String, arith,
}
use strk20_indexer.Feed.Felt.{Crypto}
use strk20_indexer.Feed.Host.{Host}
use strk20_indexer.Feed.Codec.Parse.{and_then}
use strk20_indexer.Map.{Meta}
use strk20_indexer.Consumer.Reply.{Reply, done, failed}
use strk20_indexer.Indexer.Store.{Store, IsStore}
use strk20_indexer.Indexer.Recovery.{
  Divergence, Decision, attempt, skip, fingerprint, repeat_log_secs, parse_divergence, recorded,
  decide, begin_attempt,
}
use strk20_indexer.Indexer.Recovery.Marks.{
  mark, IsMarked, record_outcome-Spares, should_log_repeat-Spares, begin_attempt-IsMarked,
  decide-eq-attempt,
}
use strk20_indexer.Indexer.Cycle.{
  Timed, ended, elapsed, Calls, World, Turn, over, again, frontier_of, recorded_of, log_and_record,
  unrelated_on, unrelated, after_closure, after_begin, after_decision, after_reorg, after_failure,
  after_cut, turn, go_on, turns, cut_epochs_with_recovery,
}

-- neither the cutter nor the closure loop takes the divergence off the record: no root has matched
pub record IsUnresolved {Db : Type 0} (contents : Db → Meta) (k : Calls Db) : Type 0 where
  pub cut :
      (l1_accepted frontier : ℕ) (db : Db)
      → IsMarked contents db
      → IsMarked contents (k.cut_ready_epochs l1_accepted frontier db).1
  pub closure :
      (d : Divergence) (db : Db) → IsMarked contents db → IsMarked contents (k.run_closure d db).1

-- No attempt was started. `db` is the database behind the first cut.
abbrev pub IsQuiet : {Db : Type 0} → (Db → Meta) → List Divergence → Db → World Db → Type 0
IsQuiet contents before db w =
    (w.started ≡ before) × (IsMarked contents db → IsMarked contents w.db)

-- One attempt was started, no divergence being on record, and the record shows it.
abbrev pub IsAttempted :
    {Db : Type 0} → (Db → Meta) → Calls Db → List Divergence → Db → World Db → Type 0
IsAttempted contents k before db w =
    (d : Divergence) × (w.started ≡ d ∷ before)
    × (mark contents db ≡ none)
    × (IsUnresolved contents k → IsMarked contents w.db)

module _ {Db : Type 0} (s : Store Db) (contents : Db → Meta) (law : IsStore s contents) (c : Crypto)
    (h : Host) (k : Calls Db) where
  abbrev Ends : List Divergence → Db → Turn × World Db → Type 0
  Ends before db (over n, w) = IsQuiet contents before db w ⊎ IsAttempted contents k before db w
  Ends before db (again, w) = IsAttempted contents k before db w

  log_and_record-IsMarked :
      (d : Divergence) (detail : String) (w : World Db)
      → IsMarked contents w.db
      → IsMarked contents (log_and_record s c h k d detail w).1.db
  unfolding log_and_record
  log_and_record-IsMarked d detail w (f, m) =
      (f, record_outcome-Spares s contents law d detail w.db ∙ m)

  after_closure_lem :
      (d : Divergence) (before : List Divergence) (db : Db) (p : Timed × Db)
      → mark contents db ≡ none
      → (IsUnresolved contents k → IsMarked contents p.1)
      → Ends before db (after_closure s c h k d before p)
  unfolding log_and_record
  after_closure_lem d before db (ended (done _), next) u m = (d, refl, u, m)
  after_closure_lem d before db (ended (failed e), next) u m = inr (
    d,
    refl,
    u,
    λ r. log_and_record-IsMarked d _ (record { db = next; started = d ∷ before }) (m r),
  )
  after_closure_lem d before db (elapsed, next) u m = inr (
    d,
    refl,
    u,
    λ r. log_and_record-IsMarked d _ (record { db = next; started = d ∷ before }) (m r),
  )

  after_begin_lem :
      (d : Divergence) (before : List Divergence) (db : Db) (p : Reply (Unit {0}) × Db)
      → begin_attempt s h d db ≡ p
      → mark contents db ≡ none
      → Ends before db (after_begin s c h k d before p)
  after_begin_lem d before db (failed e, next) q u = inl (refl, λ (f, m). absurd (cc))
  after_begin_lem d before db (done _, next) q u =
      after_closure_lem d before db (k.run_closure d next) u
        λ r. r.closure d next (fingerprint h d, begin_attempt-IsMarked s contents law h d db next q)

  after_decision_lem :
      (d : Divergence) (r : Reply Decision) (w : World Db)
      → decide s h d w.db ≡ r
      → Ends w.started w.db (after_decision s c h k d r w)
  after_decision_lem d (failed e) w q = inl (refl, λ m. m)
  after_decision_lem d (done (skip r same)) w q = inl (
    refl,
    λ (f, m). (f, should_log_repeat-Spares s contents law k.now_secs repeat_log_secs w.db ∙ m),
  )
  after_decision_lem d (done attempt) w q =
      after_begin_lem d w.started w.db (begin_attempt s h d w.db) refl
        (decide-eq-attempt s contents law h d w.db q)

  after_reorg_lem :
      (d : Divergence) (r : Reply Bool) (w : World Db)
      → Ends w.started w.db (after_reorg s c h k d r w)
  after_reorg_lem d (done true) w = inl (refl, λ m. m)
  after_reorg_lem d (done false) w = after_decision_lem d (decide s h d w.db) w refl
  after_reorg_lem d (failed e) w = inl (refl, λ m. m)

  first_lem :
      (l1_accepted : ℕ) (w : World Db) (p : Reply ℕ × Db)
      → Ends w.started p.1 (after_cut s c h k 0 w.started p)
  unfolding unrelated
  first_lem l1_accepted w (done cut, db) = inl (refl, λ m. m)
  first_lem l1_accepted w (failed e, db) = of (k.root_mismatch_of e)
    where
      of :
          (o : Option Divergence)
          → Ends w.started db (after_failure s c h k 0 o (record { db = db; started = w.started }))
      of none = inl (refl, λ m. m)
      of (some d) = after_reorg_lem d _ _

  -- a later turn starts nothing
  abbrev Later : World Db → Turn × World Db → Type 0
  Later w (t, v) = (v.started ≡ w.started) × (IsMarked contents w.db → IsMarked contents v.db)

  unrelated_lem : (n : ℕ) (w : World Db) → Later w (unrelated s c h k n w)
  unfolding unrelated log_and_record
  unrelated_lem zero w = (refl, λ m. m)
  unrelated_lem (suc n) w = of (and_then (recorded_of (recorded s w.db)) (parse_divergence c))
    where
      of : (o : Option Divergence) → Later w (unrelated_on s c h k o w)
      of none = (refl, λ m. m)
      of (some d) = (refl, log_and_record-IsMarked d _ w)

  later_lem :
      (n : ℕ) (w : World Db) (p : Reply ℕ × Db)
      → Later (record { db = p.1; started = w.started }) (after_cut s c h k (suc n) w.started p)
  unfolding log_and_record
  later_lem n w (done cut, db) = (refl, λ m. m)
  later_lem n w (failed e, db) = of (k.root_mismatch_of e)
    where
      here : World Db
      here = record { db = db; started = w.started }

      of : (o : Option Divergence) → Later here (after_failure s c h k (suc n) o here)
      of none = unrelated_lem (suc n) here
      of (some d) = (refl, log_and_record-IsMarked d _ here)

  -- what the cut leaves
  abbrev pub cut_db : (l1_accepted : ℕ) → World Db → Db
  cut_db l1_accepted w =
      (k.cut_ready_epochs l1_accepted (frontier_of (k.ingest_cursor w.db)) w.db).1

  second_lem :
      (l1_accepted : ℕ) (before : List Divergence) (db : Db) (v : World Db) (p : Turn × World Db)
      → IsAttempted contents k before db v
      → Later (record { db = cut_db l1_accepted v; started = v.started }) p
      → IsAttempted contents k before db (go_on s c h k (turns s c h k l1_accepted 0 2) p).1
  unfolding turns
  second_lem l1_accepted before db v (over n, x) (d, a, u, m) (e, f) =
      (d, e ∙ a, u, λ r. f (r.cut l1_accepted _ v.db (m r)))
  second_lem l1_accepted before db v (again, x) (d, a, u, m) (e, f) =
      (d, e ∙ a, u, λ r. f (r.cut l1_accepted _ v.db (m r)))

  -- A cycle starts the closure loop at most once, and only if no divergence is on record behind its
  -- first cut. While no root matches, the divergence is then on record when the cycle ends. A cycle
  -- that does not start it leaves a divergence that is on record there.
  pub cut_epochs_with_recovery_lem :
      (l1_accepted : ℕ) (w : World Db)
      → IsQuiet contents w.started
          (cut_db l1_accepted w)
          (cut_epochs_with_recovery s c h k l1_accepted w).1
        ⊎ IsAttempted contents k w.started
            (cut_db l1_accepted w)
            (cut_epochs_with_recovery s c h k l1_accepted w).1
  unfolding cut_epochs_with_recovery turns turn
  cut_epochs_with_recovery_lem l1_accepted w =
      of (turn s c h k l1_accepted 0 w) (first_lem l1_accepted w _)
    where
      of :
          (p : Turn × World Db)
          → Ends w.started (cut_db l1_accepted w) p
          → IsQuiet contents w.started
              (cut_db l1_accepted w)
              (go_on s c h k (turns s c h k l1_accepted 1 1) p).1
            ⊎ IsAttempted contents k w.started
                (cut_db l1_accepted w)
                (go_on s c h k (turns s c h k l1_accepted 1 1) p).1
      of (over n, v) x = x
      of (again, v) x = inr (
          second_lem l1_accepted w.started (cut_db l1_accepted w) v (turn s c h k l1_accepted 1 v) x
            (later_lem 0 v _))

  marked_lem :
      (l1_accepted : ℕ) (w : World Db)
      → IsUnresolved contents k
      → IsMarked contents w.db
      → ((cut_epochs_with_recovery s c h k l1_accepted w).1.started ≡ w.started)
        × IsMarked contents (cut_epochs_with_recovery s c h k l1_accepted w).1.db
  marked_lem l1_accepted w r m = elim (cut_epochs_with_recovery_lem l1_accepted w) [
    | inl (e, f) ↦ (e, f (r.cut l1_accepted _ w.db m))
    | inr (d, e, u, f) ↦ absurd (none-some u (r.cut l1_accepted _ w.db m))
  ]
    where
      none-some : {o : Option String} → o ≡ none → (f : String) × (o ≡ some f) → ⊥
      none-some u (f, q) = cc

module _ {Db : Type 0} (s : Store Db) (contents : Db → Meta) (law : IsStore s contents) (c : Crypto)
    (h : Host) where
  -- cycles one after the other, each with what it meets
  abbrev pub cycles : List (Calls Db × ℕ) → World Db → World Db
  cycles [] w = w
  cycles (x ∷ r) w = cycles r (cut_epochs_with_recovery s c h x.0 x.1 w).1

  marked-cycles :
      (xs : List (Calls Db × ℕ)) (w : World Db)
      → All (λ x. IsUnresolved contents x.0) xs
      → IsMarked contents w.db
      → (cycles xs w).started ≡ w.started
  marked-cycles [] w r m = refl
  marked-cycles (x ∷ xs) w r m =
      let (e, n) = marked_lem s contents law c h x.0 x.1 w r.0 m in marked-cycles xs _ r.1 n ∙ e

  -- Over any number of cycles in which no root matches, so that neither the cutter nor the closure loop
  -- takes a divergence off the record, the closure loop is started at most once, however the blocks and
  -- the roots of the mismatches move.
  pub cut_epochs_with_recovery-once :
      (xs : List (Calls Db × ℕ)) (w : World Db)
      → All (λ x. IsUnresolved contents x.0) xs
      → length (cycles xs w).started ≤ length w.started + 1
  cut_epochs_with_recovery-once [] w r = omega arith
  cut_epochs_with_recovery-once (x ∷ xs) w r =
      elim (cut_epochs_with_recovery_lem s contents law c h x.0 x.1 w) [
        | inl (e, f) ↦
            subst
              (λ ds.
                length (cycles xs (cut_epochs_with_recovery s c h x.0 x.1 w).1).started
                ≤ length ds + 1)
              e (cut_epochs_with_recovery-once xs _ r.1)
        | inr (d, e, u, f) ↦
            let kept = ap length (marked-cycles xs _ r.1 (f r.0) ∙ e) in omega arith
      ]
