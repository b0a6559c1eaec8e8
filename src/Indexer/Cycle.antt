-- ===== src/Indexer/Cycle.antt =====
-- `cut_epochs_with_recovery` of crates/indexerd/src/main.rs, over the cutter, the closure loop and the
-- RPC as the cycle meets them. What it logs is left out.
pub mod Once
use strk20_indexer.Prelude.{
  ℕ, zero, suc, Bool, true, false, Option, none, some, List, [], ◌∷◌, String, if◌then◌else◌,
}
use strk20_indexer.Feed.Felt.{Crypto}
use strk20_indexer.Feed.Host.{Host}
use strk20_indexer.Feed.Codec.Parse.{and_then}
use strk20_indexer.Consumer.Reply.{Failure, Reply, done, failed}
use strk20_indexer.Consumer.Act.{Run}
use strk20_indexer.Indexer.Store.{Store}
use strk20_indexer.Indexer.Recovery.{
  Divergence, Decision, attempt, skip, repeat_log_secs, parse_divergence, recorded, decide,
  begin_attempt, record_outcome, should_log_repeat, reorg_in_flight,
}

-- a future under `tokio::time::timeout`
pub data Timed : Type 0 where
  ended : Reply (Unit {0}) → Timed
  elapsed : Timed

-- what the cycle calls
pub record Calls (Db : Type 0) : Type 0 where
  pub ingest_cursor : Db → Reply (Option ℕ)
  pub cut_ready_epochs : (l1_accepted frontier : ℕ) → Run Db ℕ
  pub run_closure : Divergence → Db → Timed × Db
  pub get_block : ℕ → Reply String
  pub is_block_not_found : Failure → Bool
  pub is_proof_unavailable : Failure → Bool
  pub root_mismatch_of : Failure → Option Divergence
  pub now_secs : ℕ

-- the database, and the divergences for which the closure loop was started, the last one first
pub record World (Db : Type 0) : Type 0 where
  pub db : Db
  pub started : List Divergence

-- how a turn of the loop ends: with the answer of the function, or with the next turn
pub data Turn : Type 0 where
  over : (cut : ℕ) → Turn
  again : Turn

-- `.ok().flatten().unwrap_or(0)`
abbrev pub frontier_of : Reply (Option ℕ) → ℕ
frontier_of (done (some n)) = n
frontier_of _ = 0

-- `.ok().flatten()`
abbrev pub recorded_of : Reply (Option String) → Option String
recorded_of (done o) = o
recorded_of (failed e) = none

module _ {Db : Type 0} (s : Store Db) (c : Crypto) (h : Host) (k : Calls Db) where
  -- `log_and_record`, after which the function answers 0
  unfoldable pub log_and_record : Divergence → String → World Db → Turn × World Db
  log_and_record d detail w = (over 0, record w { db = (record_outcome s d detail w.db).1 })

  abbrev pub unrelated_on : Option Divergence → World Db → Turn × World Db
  unrelated_on none w = (over 0, w)
  unrelated_on (some d) w =
      log_and_record d
        "recovery attempted once; the retried cut then failed for an unrelated reason" w

  -- the cut failed without a mismatch
  unfoldable pub unrelated : ℕ → World Db → Turn × World Db
  unrelated zero w = (over 0, w)
  unrelated (suc n) w =
      unrelated_on (and_then (recorded_of (recorded s w.db)) (parse_divergence c)) w

  abbrev pub after_closure : Divergence → List Divergence → Timed × Db → Turn × World Db
  after_closure d before (ended (done _), db) = (again, record { db = db; started = d ∷ before })
  after_closure d before (ended (failed e), db) =
      log_and_record d
        (if k.is_proof_unavailable e
          then "recovery attempted once and no endpoint served a storage proof for the walk (UNAVAILABLE)"
          else "recovery attempted once and failed")
        (record { db = db; started = d ∷ before })
  after_closure d before (elapsed, db) =
      log_and_record d "recovery attempted once and hit its 900s deadline"
        (record { db = db; started = d ∷ before })

  abbrev pub after_begin : Divergence → List Divergence → Reply (Unit {0}) × Db → Turn × World Db
  after_begin d before (failed e, db) = (over 0, record { db = db; started = before })
  after_begin d before (done _, db) = after_closure d before (k.run_closure d db)

  abbrev pub after_decision : Divergence → Reply Decision → World Db → Turn × World Db
  after_decision d (failed e) w = (over 0, w)
  after_decision d (done (skip r same)) w =
      (over 0, record w { db = (should_log_repeat s k.now_secs repeat_log_secs w.db).1 })
  after_decision d (done attempt) w = after_begin d w.started (begin_attempt s h d w.db)

  abbrev pub after_reorg : Divergence → Reply Bool → World Db → Turn × World Db
  after_reorg d (done true) w = (over 0, w)
  after_reorg d (failed e) w = (over 0, w)
  after_reorg d (done false) w = after_decision d (decide s h d w.db) w

  abbrev pub after_mismatch : ℕ → Divergence → World Db → Turn × World Db
  after_mismatch zero d w =
      after_reorg d (reorg_in_flight s c h k.get_block k.is_block_not_found w.db) w
  after_mismatch (suc n) d w =
      log_and_record d
        "recovery attempted once (storage-trie walk + targeted rescan) and the mirror still disagrees"
        w

  abbrev pub after_failure : ℕ → Option Divergence → World Db → Turn × World Db
  after_failure n none w = unrelated n w
  after_failure n (some d) w = after_mismatch n d w

  abbrev pub after_cut : ℕ → List Divergence → Reply ℕ × Db → Turn × World Db
  after_cut n before (done cut, db) = (over cut, record { db = db; started = before })
  after_cut n before (failed e, db) =
      after_failure n (k.root_mismatch_of e) (record { db = db; started = before })

  -- one turn; `n` counts the turns before it
  unfoldable pub turn : (l1_accepted n : ℕ) → World Db → Turn × World Db
  turn l1_accepted n w =
      after_cut n w.started
        (k.cut_ready_epochs l1_accepted (frontier_of (k.ingest_cursor w.db)) w.db)

  abbrev pub go_on : (World Db → ℕ × World Db) → Turn × World Db → ℕ × World Db
  go_on rest (over cut, w) = (cut, w)
  go_on rest (again, w) = rest w

  -- the loop, with the number of turns that are left
  unfoldable pub turns : (l1_accepted left n : ℕ) → World Db → ℕ × World Db
  turns l1_accepted zero n w = (0, w)
  turns l1_accepted (suc left) n w = go_on (turns l1_accepted left (suc n)) (turn l1_accepted n w)

  unfoldable pub cut_epochs_with_recovery : (l1_accepted : ℕ) → World Db → ℕ × World Db
  cut_epochs_with_recovery l1_accepted w = turns l1_accepted 2 0 w
