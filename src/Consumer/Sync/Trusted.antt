-- ===== src/Consumer/Sync/Trusted.antt =====
-- What a sync that returns has verified before it discovers.
use strk20_indexer.Prelude.{
  ℕ, ◌≡◌, refl, ◌∙◌, ap, subst, Bool, true, false, not, Option, none, some, String,
}
use strk20_indexer.Feed.Felt.{Crypto}
use strk20_indexer.Feed.Host.{Host, Json}
use strk20_indexer.Feed.Checkpoint.{TrustedCheckpoint, ProofResult}
use strk20_indexer.Map.{meta_get}
use strk20_indexer.Consumer.Reply.{Failure, done}
use strk20_indexer.Consumer.Mem.{Inner}
use strk20_indexer.Consumer.Act.{Act, read_meta, after_step, after_check}
use strk20_indexer.Consumer.Apply.{Transport}
use strk20_indexer.Consumer.Apply.Start.{ApplyOutcome, apply_feed_once}
use strk20_indexer.Consumer.Anchors.{
  ProofSource, Grounding, anchored, unavailable, ground_mirror_against_rpc,
}
use strk20_indexer.Consumer.Anchors.Proved.{
  IsAnchored, IsGrounded, ground_mirror_against_rpc-IsGrounded,
}
use strk20_indexer.Consumer.Sync.{SyncOptions, is_failed, verdict, ground_if, sync_once}

module _ {Value : Type 0} (c : Crypto) (h : Host) (j : Json Value) (t : Transport)
    (message to_string : Failure → String) (to_text : TrustedCheckpoint → String)
    (from_value : Value → Option ProofResult) {Report : Type 0}
    (discover : ApplyOutcome → String → Act Report) where
  -- `w` is the mirror that the feed left and `v` the mirror that discovery starts on
  pub IsVouched : Option ProofSource → ApplyOutcome → String → (w v : Inner) → Type 0
  IsVouched none o verified w v = (verified ≡ "server-asserted") × (v ≡ w)
  IsVouched (some proofs) o verified w v =
      (verified ≡ "rpc-verified") × ((n : ℕ) × IsAnchored c j from_value proofs w o.head n v)

  pub record IsSynced (opts : SyncOptions) (g : Inner) (report : Report) (k : Inner) : Type 0 where
    pub outcome : ApplyOutcome
    pub verified : String
    pub folded : Inner
    pub start : Inner
    pub fold : apply_feed_once c h j t opts.cold_start g ≡ (done outcome, folded)
    pub vouched : IsVouched opts.anchor_proofs outcome verified folded start
    pub unmarked : is_failed (meta_get "verification_failed" start.meta) ≡ false
    pub discovery : discover outcome verified start ≡ (done report, k)

  ground_if-IsVouched :
      (o : Option ProofSource) (outcome : ApplyOutcome) (verified : String) (w v : Inner)
      → ground_if c h j t message to_string to_text from_value discover o outcome.head w
        ≡ (done verified, v)
      → IsVouched o outcome verified w v
  unfolding IsVouched IsGrounded
  ground_if-IsVouched none outcome verified w v q = (cc, cc)
  ground_if-IsVouched (some proofs) outcome verified w v q =
      after_step
        (ground_mirror_against_rpc message to_string to_text c j from_value proofs outcome.head)
        verdict w q λ r u e q1. of r u e q1
    where
      of :
          (r : Grounding) (u : Inner)
          → ground_mirror_against_rpc message to_string to_text c j from_value proofs outcome.head w
            ≡ (done r, u)
          → verdict r u ≡ (done verified, v)
          → (verified ≡ "rpc-verified")
            × ((n : ℕ) × IsAnchored c j from_value proofs w outcome.head n v)
      of (unavailable reason) u e q1 = absurd (cc)
      of (anchored n) u e q1 =
          let grounded : IsAnchored c j from_value proofs w outcome.head n u =
            subst (λ x. IsGrounded c j from_value proofs w outcome.head x) e
              (ground_mirror_against_rpc-IsGrounded c j from_value proofs w message to_string
                outcome.head to_text) in
          let same : u ≡ v = cc in
          (cc, (n, subst (λ x. IsAnchored c j from_value proofs w outcome.head n x) same grounded))

  -- A sync that returns has folded the feed, and discovery has then run on a mirror whose mark of a
  -- failed verification is not set. With a proof source, the mirror that the feed left agrees with what
  -- the source proves about the recorded pool, and discovery was handed the label "rpc-verified"; without
  -- one discovery was handed the mirror that the feed left and the label "server-asserted".
  pub sync_once-IsSynced :
      (opts : SyncOptions) (g k : Inner) (report : Report)
      → sync_once c h j t message to_string to_text from_value discover opts g ≡ (done report, k)
      → IsSynced opts g report k
  unfolding sync_once
  sync_once-IsSynced opts g k report q =
      after_step (apply_feed_once c h j t opts.cold_start) _ g q λ outcome w a q1.
        after_step
          (ground_if c h j t message to_string to_text from_value discover opts.anchor_proofs
            outcome.head)
          _ w q1
          λ verified v b q2. after_step (read_meta "verification_failed") _ v q2 λ mark u m q3.
            after_check (not (is_failed mark)) _ _ u q3 λ clear q4.
              let same : u ≡ v = cc in
              let read : meta_get "verification_failed" v.meta ≡ mark = cc in
              record {
                outcome = outcome;
                verified = verified;
                folded = w;
                start = v;
                fold = a;
                vouched = ground_if-IsVouched opts.anchor_proofs outcome verified w v b;
                unmarked = ap is_failed read ∙ unset (is_failed mark) clear;
                discovery = subst (λ x. discover outcome verified x ≡ (done report, k)) same q4;
              }
    where
      unset : (b : Bool) → not b ≡ true → b ≡ false
      unset true e = absurd (cc)
      unset false e = refl
