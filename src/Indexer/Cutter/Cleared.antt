-- ===== src/Indexer/Cutter/Cleared.antt =====
-- Only a root that matches takes a divergence off the record.
use strk20_indexer.Prelude.{
  ℕ, ◌≡◌, ◌⊎◌, refl, sym, ◌∙◌, ap, inl, inr, Bool, true, false, Option, none, some, String, ◌==◌,
  ==_iff, Bool-cases,
}
use strk20_indexer.Feed.Decimal.{decimal}
use strk20_indexer.Feed.Codec.Parse.{and_then}
use strk20_indexer.Feed.Anchors.{AnchorRecord}
use strk20_indexer.Map.{Meta, meta_get}
use strk20_indexer.Consumer.Number.{parse_u64}
use strk20_indexer.Consumer.Reply.{Failure, Reply, done, failed}
use strk20_indexer.Consumer.Mem.Generation.{meta_get-insert_self}
use strk20_indexer.Consumer.Act.{carry, ◌>>=◌, after_step}
use strk20_indexer.Indexer.Store.{Store, IsStore}
use strk20_indexer.Indexer.Recovery.{
  Divergence, divergence_key, attempts_key, reason_key, logged_at_key, not_empty, empty_keys, clear,
}
use strk20_indexer.Indexer.Recovery.Marks.{mark, write-Spares, bind-Spares, write-done}
use strk20_indexer.Indexer.Cutter.{
  VerifyOutcome, verified, unavailable, Probe, is_last, on_error, on_outcome, probe_if,
  verify_and_capture,
}

module _ {Db : Type 0} (s : Store Db) (contents : Db → Meta) (law : IsStore s contents) where
  emptied :
      (db next : Db) → s.write divergence_key "" db ≡ (done tt, next) → mark contents next ≡ none
  emptied db next q =
      ap (λ m. not_empty (meta_get divergence_key m)) (law.writes divergence_key "" db next q)
      ∙ ap not_empty (meta_get-insert_self divergence_key "" (contents db))

  clear-mark : (db next : Db) → clear s db ≡ (done tt, next) → mark contents next ≡ none
  unfolding clear empty_keys
  clear-mark db next q = after_step _ _ db q λ _ db1 w1 q1. after_step _ _ db1 q1 λ _ db2 w2 q2.
      after_step _ _ db2 q2 λ _ db3 w3 q3. after_step _ _ db3 q3 λ _ db4 w4 q4.
        let same : db4 ≡ next = cc in
        ap (mark contents) (sym same)
        ∙ write-done s contents law logged_at_key "" db3 db4 _ refl w4
        ∙ write-done s contents law reason_key "" db2 db3 _ refl w3
        ∙ write-done s contents law attempts_key "" db1 db2 _ refl w2
        ∙ emptied db db1 w1

module _ {Db : Type 0} (s : Store Db) (contents : Db → Meta) (law : IsStore s contents)
    (p : Probe Db)
    (keeps : (a : AnchorRecord) (db : Db)
      → mark contents (p.record_anchor a db).1 ≡ mark contents db) where
  -- there is nothing to probe, the frontier was probed before, or the store does not say
  abbrev pub IsSkipped : ℕ → Db → Type 0
  IsSkipped frontier db =
      (frontier ≡ 0)
      ⊎ (((last : Option String) × (s.read "anchor_probe_frontier" db ≡ done last)
            × (and_then last parse_u64 ≡ some frontier))
          ⊎ ((e : Failure) × (s.read "anchor_probe_frontier" db ≡ failed e)))

  -- the probe has answered that the root matches
  abbrev pub HasMatched : ℕ → Db → Type 0
  HasMatched frontier db =
      (a : AnchorRecord) × (p.verify_root_at_target frontier db ≡ done (verified a))

  -- the probe has no answer, or a failure
  abbrev pub HasNot : ℕ → Db → Type 0
  HasNot frontier db =
      ((why : String) × (p.verify_root_at_target frontier db ≡ done (unavailable why)))
      ⊎ ((e : Failure) × (p.verify_root_at_target frontier db ≡ failed e))

  -- a write has failed on the way, or no divergence is on record
  abbrev pub IsCleared : Reply (Unit {0}) × Db → Type 0
  IsCleared x = ((e : Failure) × (x.0 ≡ failed e)) ⊎ (mark contents x.1 ≡ none)

  -- what a run of the probe at `frontier` does to the divergence on record
  abbrev pub IsFair : ℕ → Db → Reply (Unit {0}) × Db → Type 0
  IsFair frontier db x =
      (IsSkipped frontier db × (x.1 ≡ db))
      ⊎ ((HasMatched frontier db × IsCleared x)
          ⊎ (HasNot frontier db × (mark contents x.1 ≡ mark contents db)))

  on_error-mark :
      (e : Failure) (o : Option Divergence) (db : Db)
      → mark contents (on_error s p e o db).1 ≡ mark contents db
  on_error-mark e (some m) db =
      bind-Spares s contents law _ _ (write-Spares s contents law "verify_root_failed" "1" refl)
        (λ _ k. refl) db
  on_error-mark e none db = elim (Bool-cases (p.is_proof_unbound e)) [
    | inl x ↦ rw x refl
    | inr x ↦ rw x refl
  ]

  verified-mark :
      (frontier : ℕ) (a : AnchorRecord) (db next : Db)
      → on_outcome s p frontier (done (verified a)) db ≡ (done tt, next)
      → mark contents next ≡ none
  verified-mark frontier a db next q = after_step _ _ db q λ _ db1 w1 q1.
      after_step _ _ db1 q1 λ _ db2 w2 q2. after_step _ _ db2 q2 λ _ db3 w3 q3.
        write-done s contents law "anchor_probe_frontier" (decimal frontier) db3 next _ refl q3
        ∙ ap (λ x. mark contents x.1) (sym w3)
        ∙ keeps a db2
        ∙ clear-mark s contents law db1 db2 w2

  verified-IsCleared :
      (frontier : ℕ) (a : AnchorRecord) (db : Db) (x : Reply (Unit {0}) × Db)
      → on_outcome s p frontier (done (verified a)) db ≡ x
      → IsCleared x
  verified-IsCleared frontier a db (failed e, next) q = inl (e, refl)
  verified-IsCleared frontier a db (done _, next) q = inr (verified-mark frontier a db next q)

  on_outcome-IsFair :
      (frontier : ℕ) (db : Db) (r : Reply VerifyOutcome)
      → p.verify_root_at_target frontier db ≡ r
      → IsFair frontier db (on_outcome s p frontier r db)
  on_outcome-IsFair frontier db (done (verified a)) q =
      inr (inl ((a, q), verified-IsCleared frontier a db _ refl))
  on_outcome-IsFair frontier db (done (unavailable why)) q = inr (
      inr (
        inl (why, q),
        write-Spares s contents law "anchor_probe_frontier" (decimal frontier) refl db,
      ))
  on_outcome-IsFair frontier db (failed e) q =
      inr (inr (inr (e, q), on_error-mark e (p.root_mismatch_of e) db))

  is_last-eq : (o : Option ℕ) (frontier : ℕ) → is_last o frontier ≡ true → o ≡ some frontier
  is_last-eq none frontier q = absurd (cc)
  is_last-eq (some n) frontier q = ap some ((==_iff n frontier).0 q)

  -- A run of the probe leaves the store as it is, and then the frontier is 0, was probed before or
  -- cannot be read. Otherwise, if the chain's root matches, no divergence is on record afterwards,
  -- unless a write fails; if it does not match or there is no answer, the divergence on record stays.
  -- The log of the anchors is apart from the record.
  pub verify_and_capture-IsFair :
      (frontier : ℕ) (db : Db) → IsFair frontier db (verify_and_capture s p frontier db)
  unfolding verify_and_capture ◌>>=◌
  verify_and_capture-IsFair frontier db = elim (Bool-cases (frontier == 0)) [
    | inl x ↦ rw (verify_and_capture, x) (inl (inl ((==_iff frontier 0).0 x), refl))
    | inr x ↦ rw (verify_and_capture, ◌>>=◌, x) (of (s.read "anchor_probe_frontier" db) refl)
  ]
    where
      under :
          (last : Option String) (b : Bool)
          → s.read "anchor_probe_frontier" db ≡ done last
          → is_last (and_then last parse_u64) frontier ≡ b
          → IsFair frontier db (probe_if s p frontier b db)
      under last true q l = inl (inr (inl (last, q, is_last-eq _ frontier l)), refl)
      under last false q l =
          on_outcome-IsFair frontier db (p.verify_root_at_target frontier db) refl

      of :
          (r : Reply (Option String))
          → s.read "anchor_probe_frontier" db ≡ r
          → IsFair frontier db (
              carry
                (r, db)
                (λ last. probe_if s p frontier (is_last (and_then last parse_u64) frontier)))
      of (failed e) q = inl (inr (inr (e, q)), refl)
      of (done last) q = under last (is_last (and_then last parse_u64) frontier) q refl
