-- ===== src/Consumer/Anchors/Proved.antt =====
-- What the check against a proof source of the user's own shows, and what it leaves in the store.
use strk20_indexer.Prelude.{ℕ, ◌≡◌, ◌⊎◌, refl, ap, inl, inr, Option, none, some, String, Bool-cases}
use strk20_indexer.Feed.Error.{Result, ok}
use strk20_indexer.Feed.Felt.{Felt, Crypto}
use strk20_indexer.Feed.Host.{Bytes, Json}
use strk20_indexer.Feed.Checkpoint.{TrustedCheckpoint, ProofResult, verify_checkpoint}
use strk20_indexer.Map.{meta_get}
use strk20_indexer.Consumer.Reply.{Failure, Reply, done, failed}
use strk20_indexer.Consumer.Mem.{Inner}
use strk20_indexer.Consumer.State.{verify_state}
use strk20_indexer.Consumer.State.Grounded.{IsChecked, verify_state_lem}
use strk20_indexer.Consumer.Act.{Act, carry, ◌>>=◌}
use strk20_indexer.Consumer.Apply.Epochs.{from_feed-eq-ok}
use strk20_indexer.Consumer.Anchors.{
  ProofSource, Grounding, anchored, unavailable, of_walk, is_proof_unavailable, or_unavailable,
  recorded_pool, ground_on, ground_mirror_against_rpc,
}

of_walk-eq-done :
    {A : Type 0} (o : Option (Result A)) {a : A} → of_walk o ≡ done a → o ≡ some (ok a)
of_walk-eq-done none q = absurd (cc)
of_walk-eq-done (some r) q = ap some (from_feed-eq-ok r q)

module _ {Value : Type 0} (c : Crypto) (j : Json Value) (from_value : Value → Option ProofResult)
    (proofs : ProofSource) (g : Inner) where
  -- the proof source has answered for the pool and the head, and the mirror agrees with its answer
  pub record IsAnchored (head n : ℕ) (k : Inner) : Type 0 where
    pub pool : Felt
    pub checkpoint : TrustedCheckpoint
    pub proof : Bytes
    pub root : Felt
    pub recorded : recorded_pool c g ≡ done pool
    pub asked : proofs.checkpoint pool head ≡ done checkpoint
    pub proved : proofs.storage_proof pool checkpoint.block_number ≡ done proof
    pub accepted : verify_checkpoint c j from_value checkpoint proof ≡ some (ok root)
    pub is_checked : IsChecked c checkpoint root g
    pub at : n ≡ checkpoint.block_number
    pub unmarked : meta_get "verification_failed" k.meta ≡ some "0"

  unfoldable pub IsGrounded : ℕ → Reply Grounding × Inner → Type 0
  IsGrounded head (done (anchored n), k) = IsAnchored head n k
  IsGrounded head (done (unavailable reason), k) = k ≡ g
  IsGrounded head (failed e, k) = (k ≡ g) ⊎ (meta_get "verification_failed" k.meta ≡ some "1")

  module _ (message to_string : Failure → String) (head : ℕ) where
    stays : (m : Reply Grounding) → ((n : ℕ) → m ≡ done (anchored n) → ⊥) → IsGrounded head (m, g)
    unfolding IsGrounded
    stays (done (anchored n)) h = absurd (h n refl)
    stays (done (unavailable x)) h = refl
    stays (failed e) h = inl refl

    or_unavailable-IsGrounded :
        {A : Type 0} (r : Reply A) (rest : A → Act Grounding)
        → ((a : A) → r ≡ done a → IsGrounded head (rest a g))
        → IsGrounded head (or_unavailable message to_string r rest g)
    unfolding IsGrounded
    or_unavailable-IsGrounded (done a) rest h = h a refl
    or_unavailable-IsGrounded (failed e) rest h =
        elim (Bool-cases (is_proof_unavailable message to_string e)) [
          | inl x ↦ rw (IsGrounded, x) refl
          | inr x ↦ rw (IsGrounded, x) (inl refl)
        ]

    module _ (to_text : TrustedCheckpoint → String) where
      of_state :
          (pool : Felt) (cp : TrustedCheckpoint) (proof : Bytes) (root : Felt)
          (p : Reply (Unit {0}) × Inner)
          → recorded_pool c g ≡ done pool
          → proofs.checkpoint pool head ≡ done cp
          → proofs.storage_proof pool cp.block_number ≡ done proof
          → verify_checkpoint c j from_value cp proof ≡ some (ok root)
          → ((p.0 ≡ done tt)
              × (meta_get "verification_failed" p.1.meta ≡ some "0")
              × IsChecked c cp root g)
            ⊎ ((e : Failure) × (p.0 ≡ failed e)
                × (meta_get "verification_failed" p.1.meta ≡ some "1"))
          → IsGrounded head (carry p (λ _ k. (done (anchored cp.block_number), k)))
      unfolding IsGrounded
      of_state pool cp proof root (done x, k) o a b v (inl (_, m, y)) = record {
        pool = pool;
        checkpoint = cp;
        proof = proof;
        root = root;
        recorded = o;
        asked = a;
        proved = b;
        accepted = v;
        is_checked = y;
        at = refl;
        unmarked = m;
      }
      of_state pool cp proof root (failed e, k) o a b v (inl (x, m, y)) = absurd (cc)
      of_state pool cp proof root (done x, k) o a b v (inr (e, y, m)) = absurd (cc)
      of_state pool cp proof root (failed x, k) o a b v (inr (e, y, m)) = inr m

      of_root :
          (pool : Felt) (cp : TrustedCheckpoint) (proof : Bytes) (r : Reply Felt)
          → recorded_pool c g ≡ done pool
          → proofs.checkpoint pool head ≡ done cp
          → proofs.storage_proof pool cp.block_number ≡ done proof
          → of_walk (verify_checkpoint c j from_value cp proof) ≡ r
          → IsGrounded head (
              carry
                (r, g)
                (λ root.
                  verify_state to_text c cp root >>= (λ _ k. (done (anchored cp.block_number), k))))
      unfolding IsGrounded ◌>>=◌
      of_root pool cp proof (failed e) o a b q = inl refl
      of_root pool cp proof (done root) o a b q =
          of_state pool cp proof root (verify_state to_text c cp root g) o a b (of_walk-eq-done _ q)
            (verify_state_lem to_text c cp root g)

      of_pool :
          (r : Reply Felt)
          → recorded_pool c g ≡ r
          → IsGrounded head (
              carry
                (r, g)
                (λ pool. or_unavailable message to_string (proofs.checkpoint pool head) λ cp.
                  or_unavailable message to_string
                    (proofs.storage_proof pool cp.block_number)
                    λ proof. ground_on message to_string to_text c j from_value proofs cp proof))
      unfolding IsGrounded ground_on ◌>>=◌
      of_pool (failed e) o = inl refl
      of_pool (done pool) o = or_unavailable-IsGrounded (proofs.checkpoint pool head) _ λ cp a.
          or_unavailable-IsGrounded (proofs.storage_proof pool cp.block_number) _
            λ proof b. of_root pool cp proof _ o a b refl

      -- The check against a proof source, in every case. If it reports the block of a checkpoint, the
      -- source has answered with that checkpoint for the recorded pool and the head, and with a proof for its
      -- block, the proof is accepted against the checkpoint, and the mirror passes the state check
      -- against the root of the proof; the mark of a failure is then "0". If it reports that the source
      -- has no answer, the store is unchanged. If it fails, the store is unchanged or the mark is "1".
      pub ground_mirror_against_rpc-IsGrounded :
          IsGrounded head
            (ground_mirror_against_rpc message to_string to_text c j from_value proofs head g)
      unfolding ground_mirror_against_rpc ◌>>=◌
      ground_mirror_against_rpc-IsGrounded = of_pool (recorded_pool c g) refl
