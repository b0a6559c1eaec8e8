-- ===== src/Indexer/Cutter.antt =====
-- `verify_and_capture` of crates/indexerd/src/cutter.rs, over the check of the root and the anchor log.
pub mod Cleared
use strk20_indexer.Prelude.{ℕ, Bool, true, false, Option, none, some, String, ◌==◌, if◌then◌else◌}
use strk20_indexer.Feed.Decimal.{decimal}
use strk20_indexer.Feed.Codec.Parse.{and_then}
use strk20_indexer.Feed.Anchors.{AnchorRecord}
use strk20_indexer.Consumer.Number.{parse_u64}
use strk20_indexer.Consumer.Reply.{Failure, Reply, done, failed}
use strk20_indexer.Consumer.Act.{Run, ◌>>=◌, ◌>>◌, give, look, answer}
use strk20_indexer.Indexer.Store.{Store}
use strk20_indexer.Indexer.Recovery.{Divergence, clear}

pub data VerifyOutcome : Type 0 where
  verified : AnchorRecord → VerifyOutcome
  unavailable : (why : String) → VerifyOutcome

-- the probe of the chain's root, which does not write, and the log of the anchors
pub record Probe (Db : Type 0) : Type 0 where
  pub verify_root_at_target : ℕ → Db → Reply VerifyOutcome
  pub record_anchor : AnchorRecord → Run Db (Unit {0})
  pub root_mismatch_of : Failure → Option Divergence
  pub is_proof_unbound : Failure → Bool

abbrev pub is_last : Option ℕ → ℕ → Bool
is_last none frontier = false
is_last (some n) frontier = n == frontier

module _ {Db : Type 0} (s : Store Db) (p : Probe Db) where
  abbrev pub on_error : Failure → Option Divergence → Run Db (Unit {0})
  on_error e (some m) = do s.write "verify_root_failed" "1"; answer (failed e)
  on_error e none = if p.is_proof_unbound e then answer (failed e) else give tt

  abbrev pub on_outcome : ℕ → Reply VerifyOutcome → Run Db (Unit {0})
  on_outcome frontier (done (verified anchor)) = do
    s.write "verify_root_failed" ""
    clear s
    p.record_anchor anchor
    s.write "anchor_probe_frontier" (decimal frontier)
  on_outcome frontier (done (unavailable why)) = s.write "anchor_probe_frontier" (decimal frontier)
  on_outcome frontier (failed e) = on_error e (p.root_mismatch_of e)

  abbrev pub probe_if : ℕ → Bool → Run Db (Unit {0})
  probe_if frontier true db = (done tt, db)
  probe_if frontier false db = on_outcome frontier (p.verify_root_at_target frontier db) db

  unfoldable pub verify_and_capture : ℕ → Run Db (Unit {0})
  verify_and_capture frontier =
      if frontier == 0
      then give tt
      else look (s.read "anchor_probe_frontier") >>= λ last.
          probe_if frontier (is_last (and_then last parse_u64) frontier)
