-- ===== src/Indexer/Recovery/Marks.antt =====
-- What the operations of the recovery record do to the divergence on record.
use Prim.Native.Char.{Char}
use Prim.Native.String.{◌++◌ as str_append}
use text.Mathlib.TextLemmas.{append-ne-nil_of_right_ne-nil, cons-ne-nil}
use strk20_indexer.Prelude.{
  ℕ, ◌≡◌, refl, sym, ◌∙◌, ap, inl, inr, Bool, true, false, Option, none, some, String, str_eq,
  eq_iff, Bool-cases,
}
use strk20_indexer.Feed.Decimal.{decimal}
use strk20_indexer.Feed.Host.{Host}
use strk20_indexer.Map.{Meta, meta_get}
use strk20_indexer.Consumer.Reply.{Reply, done, failed, with_value-eq-done}
use strk20_indexer.Consumer.Mem.Generation.{meta_get-insert_self, meta_get-insert_ne}
use strk20_indexer.Consumer.Act.{Run, carry, ◌>>=◌, after_step}
use strk20_indexer.Indexer.Store.{Store, IsStore}
use strk20_indexer.Indexer.Recovery.{
  Divergence, attempt, divergence_key, attempts_key, reason_key, logged_at_key, fingerprint,
  not_empty, decision_on, recorded, decide, begin_attempt, record_outcome, tick, should_log_repeat,
}

append-eq-empty :
    (a : String) (ch : Char) (b : String) → str_eq (str_append a (String.◌∷◌ ch b)) "" ≡ false
append-eq-empty a ch b = elim (Bool-cases (str_eq (str_append a (String.◌∷◌ ch b)) "")) [
  | inl x ↦
      absurd (
        append-ne-nil_of_right_ne-nil a {t = String.◌∷◌ ch b} (cons-ne-nil ch b) ((eq_iff _ _).0 x))
  | inr x ↦ x
]

-- the divergence on record
abbrev pub mark : {Db : Type 0} → (contents : Db → Meta) → Db → Option String
mark contents db = not_empty (meta_get divergence_key (contents db))

abbrev pub IsMarked : {Db : Type 0} → (contents : Db → Meta) → Db → Type 0
IsMarked contents db = (f : String) × (mark contents db ≡ some f)

module _ {Db : Type 0} (s : Store Db) (contents : Db → Meta) (law : IsStore s contents) where
  -- the divergence on record stays
  abbrev pub Spares : {A : Type 0} → Run Db A → Type 0
  Spares m = (db : Db) → mark contents (m db).1 ≡ mark contents db

  pub write-Spares :
      (key value : String) → str_eq key divergence_key ≡ false → Spares (s.write key value)
  write-Spares key value n db = of (s.write key value db) refl
    where
      of :
          (r : Reply (Unit {0}) × Db)
          → s.write key value db ≡ r
          → mark contents r.1 ≡ mark contents db
      of (failed e, next) q =
          ap (λ m. not_empty (meta_get divergence_key m)) (law.keeps key value e db next q)
      of (done _, next) q =
          ap (λ m. not_empty (meta_get divergence_key m)) (law.writes key value db next q)
          ∙ ap not_empty (meta_get-insert_ne divergence_key key value (contents db) n)

  pub bind-Spares :
      {A B : Type 0} (m : Run Db A) (rest : A → Run Db B)
      → Spares m
      → ((a : A) → Spares (rest a))
      → Spares (m >>= rest)
  unfolding ◌>>=◌
  bind-Spares {A = A} m rest x y db = of (m db) (x db)
    where
      of :
          (r : Reply A × Db)
          → mark contents r.1 ≡ mark contents db
          → mark contents (carry r rest).1 ≡ mark contents db
      of (failed e, next) q = q
      of (done a, next) q = y a next ∙ q

  pub record_outcome-Spares :
      (d : Divergence) (detail : String) → Spares (record_outcome s d detail)
  unfolding record_outcome
  record_outcome-Spares d detail = write-Spares reason_key _ refl

  tick-Spares : (now : ℕ) (due : Bool) → Spares (tick s now due)
  tick-Spares now true db = write-Spares logged_at_key _ refl db
  tick-Spares now false db = refl

  pub should_log_repeat-Spares : (now interval : ℕ) → Spares (should_log_repeat s now interval)
  unfolding should_log_repeat
  should_log_repeat-Spares now interval =
      bind-Spares _ _ (λ db. refl) λ last. bind-Spares _ _ (tick-Spares now _) λ _ db. refl

  fingerprint-not_empty :
      (h : Host) (d : Divergence) → not_empty (some (fingerprint h d)) ≡ some (fingerprint h d)
  unfolding fingerprint
  fingerprint-not_empty h d = rw (fingerprint, append-eq-empty (decimal d.block) ":" _) refl

  after_write :
      (h : Host) (d : Divergence) (db next : Db)
      → s.write divergence_key (fingerprint h d) db ≡ (done tt, next)
      → mark contents next ≡ some (fingerprint h d)
  after_write h d db next q =
      ap (λ m. not_empty (meta_get divergence_key m)) (law.writes divergence_key _ db next q)
      ∙ ap not_empty (meta_get-insert_self divergence_key (fingerprint h d) (contents db))
      ∙ fingerprint-not_empty h d

  pub write-done :
      (key value : String) (db next : Db) (u : Unit {0})
      → str_eq key divergence_key ≡ false
      → s.write key value db ≡ (done u, next)
      → mark contents next ≡ mark contents db
  write-done key value db next u n q =
      sym (ap (λ r. mark contents r.1) q) ∙ write-Spares key value n db

  -- what an attempt leaves on record
  pub begin_attempt-IsMarked :
      (h : Host) (d : Divergence) (db next : Db)
      → begin_attempt s h d db ≡ (done tt, next)
      → mark contents next ≡ some (fingerprint h d)
  unfolding begin_attempt
  begin_attempt-IsMarked h d db next q = after_step _ _ db q λ _ db1 w1 q1.
      after_step _ _ db1 q1 λ _ db2 w2 q2. after_step _ _ db2 q2 λ _ db3 w3 q3.
        write-done logged_at_key "" db3 next _ refl q3
        ∙ write-done reason_key _ db2 db3 _ refl w3
        ∙ write-done attempts_key "1" db1 db2 _ refl w2
        ∙ after_write h d db db1 w1

  -- an attempt is decided only where no divergence is on record
  pub decide-eq-attempt :
      (h : Host) (d : Divergence) (db : Db)
      → decide s h d db ≡ done attempt
      → mark contents db ≡ none
  unfolding decide recorded
  decide-eq-attempt h d db q =
      let (o, x, q1) = with_value-eq-done (recorded s db) _ q in
      let (p, y, q2) = with_value-eq-done (s.read divergence_key db) _ x in
      let same : not_empty p ≡ o = cc in
      ap not_empty (sym (law.finds divergence_key p db y)) ∙ same ∙ nothing o cc
    where
      nothing : (o : Option String) → decision_on o (fingerprint h d) ≡ attempt → o ≡ none
      nothing none e = refl
      nothing (some r) e = absurd (cc)
