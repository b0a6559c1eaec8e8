-- ===== src/Examples/Recovery.antt =====
-- A table as the database, and a cycle whose cut meets a mismatch.
use strk20_indexer.Prelude.{
  ℕ, ◌+◌, ◌≤◌, ◌≡◌, ◌⊎◌, refl, Bool, true, false, Option, none, some, [], ◌∷◌, String, length, ◌==◌,
  arith,
}
use strk20_indexer.Feed.Felt.{byte}
use strk20_indexer.Feed.Host.{Bytes, Host}
use strk20_indexer.Feed.Decimal.{decimal}
use strk20_indexer.Feed.Hex.{felt_hex}
use strk20_indexer.Map.{Meta, meta_get, meta_insert, last}
use strk20_indexer.Consumer.Reply.{Failure, bail, done, failed}
use strk20_indexer.Consumer.Act.{◌>>=◌}
use strk20_indexer.Indexer.Store.{Store, IsStore}
use strk20_indexer.Indexer.Recovery.{Divergence, fingerprint, parse_divergence, should_log_repeat}
use strk20_indexer.Indexer.Recovery.Named.{IsPlain, parse_divergence-fingerprint}
use strk20_indexer.Indexer.Recovery.Repeats.{should_log_repeat-once}
use strk20_indexer.Indexer.Cycle.{ended, Calls, World, cut_epochs_with_recovery}
use strk20_indexer.Indexer.Cycle.Once.{
  IsUnresolved, IsQuiet, IsAttempted, cut_db, cut_epochs_with_recovery_lem, cycles,
  cut_epochs_with_recovery-once,
}
use strk20_indexer.Indexer.Cutter.{verified, Probe, verify_and_capture}
use strk20_indexer.Indexer.Cutter.Cleared.{IsFair, verify_and_capture-IsFair}
use strk20_indexer.Examples.World.{crypto, host}

abbrev ends_in_7 : Option ℕ → Bool
ends_in_7 (some n) = n == 7
ends_in_7 none = false

abbrev hex_of : Bool → String
hex_of true = "07"
hex_of false = "09"

-- the digits of the last byte
abbrev names : Host
names = record host { hex_encode = λ b. hex_of (ends_in_7 (last b)) }

names-IsPlain : (b : Bytes) → IsPlain (names.hex_encode b)
names-IsPlain b = of (ends_in_7 (last b))
  where
    of : (x : Bool) → IsPlain (hex_of x)
    of true = (refl, (refl, tt))
    of false = (refl, (refl, tt))

abbrev diverged : Divergence
diverged = record { block = 14; local_root = 7; chain_root = 9 }

hex_7 : crypto.from_hex (felt_hex names 7) ≡ some 7
unfolding felt_hex last byte
hex_7 = refl

hex_9 : crypto.from_hex (felt_hex names 9) ≡ some 9
unfolding felt_hex last byte
hex_9 = refl

parse_divergence-fingerprint_example :
    parse_divergence crypto (fingerprint names diverged) ≡ some diverged
parse_divergence-fingerprint_example =
    parse_divergence-fingerprint crypto names diverged names-IsPlain (omega arith) hex_7 hex_9

abbrev table : Store Meta
table = record {
  read = λ key m. done (meta_get key m);
  write = λ key value m. (done tt, meta_insert key value m);
}

table-IsStore : IsStore table (λ m. m)
table-IsStore = record {
  finds = λ key o m q. cc;
  writes = λ key value m next q. cc;
  keeps = λ key value e m next q. absurd (cc);
}

abbrev ticked : Meta
ticked = ("recovery_logged_at", "1000") ∷ []

logged : should_log_repeat table 1000 600 [] ≡ (done true, ticked)
unfolding should_log_repeat ◌>>=◌ meta_get meta_insert decimal
logged = refl

should_log_repeat-once_example :
    (should_log_repeat table 1599 600 ticked ≡ (done false, ticked))
    ⊎ ((e : Failure) × (should_log_repeat table 1599 600 ticked ≡ (failed e, ticked)))
should_log_repeat-once_example =
    should_log_repeat-once table (λ m. m) table-IsStore 1000 1599 600 [] ticked (omega arith)
      (omega arith) logged

-- every cut meets the mismatch, and the closure loop changes nothing
abbrev stuck : Calls Meta
stuck = record {
  ingest_cursor = λ m. done (some 20);
  cut_ready_epochs = λ l1_accepted frontier m. (failed (bail "VERIFY-ROOT MISMATCH"), m);
  run_closure = λ d m. (ended (done tt), m);
  get_block = λ n. failed (bail "no head");
  is_block_not_found = λ e. false;
  is_proof_unavailable = λ e. false;
  root_mismatch_of = λ e. some diverged;
  now_secs = 1000;
}

abbrev clean : World Meta
clean = record { db = []; started = [] }

cut_epochs_with_recovery_lem_example :
    IsQuiet
      (λ m. m)
      []
      (cut_db table (λ m. m) table-IsStore crypto names stuck 5 clean)
      (cut_epochs_with_recovery table crypto names stuck 5 clean).1
    ⊎ IsAttempted
        (λ m. m)
        stuck
        []
        (cut_db table (λ m. m) table-IsStore crypto names stuck 5 clean)
        (cut_epochs_with_recovery table crypto names stuck 5 clean).1
cut_epochs_with_recovery_lem_example =
    cut_epochs_with_recovery_lem table (λ m. m) table-IsStore crypto names stuck 5 clean

stuck-IsUnresolved : IsUnresolved (λ m. m) stuck
stuck-IsUnresolved = record { cut = λ l1_accepted frontier m x. x; closure = λ d m x. x }

cut_epochs_with_recovery-once_example :
    length
      (cycles table
        (λ m. m)
        table-IsStore
        crypto
        names
        ((stuck, 5) ∷ (stuck, 6) ∷ [])
        clean).started
    ≤ length {A = Divergence} [] + 1
cut_epochs_with_recovery-once_example =
    cut_epochs_with_recovery-once table (λ m. m) table-IsStore crypto names
      ((stuck, 5) ∷ (stuck, 6) ∷ []) clean (stuck-IsUnresolved, (stuck-IsUnresolved, tt))

-- a probe whose root matches, and a log that is kept apart
abbrev matching : Probe Meta
matching = record {
  verify_root_at_target =
      λ n m. done (verified (record { block = 14; block_hash = 3; storage_root = 9; class = 5 }));
  record_anchor = λ a m. (done tt, m);
  root_mismatch_of = λ e. none;
  is_proof_unbound = λ e. false;
}

abbrev recorded_mirror : Meta
recorded_mirror = ("recovery_divergence", "14:0x7:0x9") ∷ []

verify_and_capture-IsFair_example :
    IsFair table
      (λ m. m)
      table-IsStore
      matching
      (λ a m. refl)
      14
      recorded_mirror
      (verify_and_capture table matching 14 recorded_mirror)
verify_and_capture-IsFair_example =
    verify_and_capture-IsFair table (λ m. m) table-IsStore matching (λ a m. refl) 14 recorded_mirror
