-- ===== src/Feed/Checkpoint/Bound.antt =====
-- What a root that `verify_checkpoint` returns is bound to.
use strk20_indexer.Prelude.{
  ◌≡◌, ◌≢◌, ◌⊎◌, inl, inr, refl, sym, ap, ◌∙◌, subst, Bool, not, Option, none, some, List, [], ◌∷◌,
  ◌==◌, ==_iff, ℕ_discrete, arith,
}
use strk20_indexer.Feed.Error.{Result, ok, err, >>=-eq-ok, ensure-eq-ok}
use strk20_indexer.Feed.Felt.{Felt, Crypto}
use strk20_indexer.Feed.Host.{Bytes, Json}
use strk20_indexer.Feed.Mpt.{tree_height, key_bits}
use strk20_indexer.Feed.Mpt.Spec.{root_of}
use strk20_indexer.Feed.Mpt.Nodes.{Break}
use strk20_indexer.Feed.Proof.{ProofOutcome, member, non_member, verify_storage_proof}
use strk20_indexer.Feed.Proof.Sound.{Agrees, verify_storage_proof_sound}
use strk20_indexer.Feed.Checkpoint.{
  TrustedCheckpoint, ProofResult, Claimed, lift, lift_walk, only_leaf, proof_felt, check_address,
  check_trusted, state_commitment, contract_leaf_hash, state_commitment_tag, check_leaf,
  check_proof, read_proof, verify_checkpoint,
}

lift-eq-ok :
    {A B : Type 0} (m : Result A) (k : A → Option (Result B)) {b : B}
    → lift m k ≡ some (ok b)
    → (a : A) × (m ≡ ok a) × (k a ≡ some (ok b))
lift-eq-ok (err e) k h = absurd (cc)
lift-eq-ok (ok a) k h = (a, refl, h)

lift_walk-eq-ok :
    {B : Type 0} (m : Option (Result ProofOutcome)) (k : ProofOutcome → Result B) {b : B}
    → lift_walk m k ≡ some (ok b)
    → (o : ProofOutcome) × (m ≡ some (ok o)) × (k o ≡ ok b)
lift_walk-eq-ok none k h = absurd (cc)
lift_walk-eq-ok (some (err e)) k h = absurd (cc)
lift_walk-eq-ok (some (ok o)) k h = (o, refl, cc)

module _ (c : Crypto) where
  -- two openings of a hash of the `poseidon_hash_many` or the Pedersen kind
  pub record PoseidonCollision : Type 0 where
    pub first : List Felt
    pub second : List Felt
    pub differ : first ≢ second
    pub same : c.poseidon_hash_many first ≡ c.poseidon_hash_many second

  pub record PedersenCollision : Type 0 where
    pub first : Felt × Felt
    pub second : Felt × Felt
    pub differ : first ≢ second
    pub same : c.pedersen_hash first.0 first.1 ≡ c.pedersen_hash second.0 second.1

  pub state_commitment_binds :
      (a b x y : Felt)
      → state_commitment c a b ≡ state_commitment c x y
      → (a ≡ x) ⊎ PoseidonCollision
  unfolding state_commitment
  state_commitment_binds a b x y h = elim (ℕ_discrete a x) [
    | yes e ↦ inl e
    | no n ↦ inr (record {
      first = state_commitment_tag ∷ a ∷ b ∷ [];
      second = state_commitment_tag ∷ x ∷ y ∷ [];
      differ = λ e. n (cc);
      same = h;
    })
  ]

  pedersen_binds :
      (a b x y : Felt)
      → c.pedersen_hash a b ≡ c.pedersen_hash x y
      → ((a ≡ x) × (b ≡ y)) ⊎ PedersenCollision
  pedersen_binds a b x y h = elim (ℕ_discrete a x) [
    | no n ↦
        inr
          (record { first = (a, b); second = (x, y); differ = λ e. n (ap (λ p. p.0) e); same = h })
    | yes e ↦ elim (ℕ_discrete b y) [
      | yes f ↦ inl (e, f)
      | no n ↦
          inr (record {
            first = (a, b);
            second = (x, y);
            differ = λ q. n (ap (λ p. p.1) q);
            same = h;
          })
    ]
  ]

  pub contract_leaf_hash_binds :
      (k r n k' r' n' : Felt)
      → contract_leaf_hash c k r n ≡ contract_leaf_hash c k' r' n'
      → (r ≡ r') ⊎ PedersenCollision
  unfolding contract_leaf_hash
  contract_leaf_hash_binds k r n k' r' n' h = elim (pedersen_binds _ _ _ _ h) [
    | inr x ↦ inr x
    | inl (p, _) ↦ elim (pedersen_binds _ _ _ _ p) [
      | inr x ↦ inr x
      | inl (q, _) ↦ elim (pedersen_binds _ _ _ _ q) [ inr x ↦ inr x | inl (_, s) ↦ inl s ]
    ]
  ]

  -- what steps 1 to 3 have checked before the walk
  record Committed (cp : TrustedCheckpoint) (s : Claimed) : Type 0 where
    classes : Felt
    commits : state_commitment c s.contracts_tree_root classes ≡ cp.state_root
    deployed : s.class_hash ≢ 0

  check_proof-Committed :
      (cp : TrustedCheckpoint) (proof : ProofResult) {s : Claimed}
      → check_proof c cp proof ≡ ok s
      → Committed cp s
  unfolding check_proof
  check_proof-Committed cp proof q =
      let (leaf, _, q1) = >>=-eq-ok (only_leaf proof.contracts_proof.contract_leaves_data) _ q in
      let (block_hash, _, q2) = >>=-eq-ok (proof_felt c proof.global_roots.block_hash) _ q1 in
      let (_, q3) = ensure-eq-ok (block_hash == cp.block_hash) _ _ q2 in
      let (contracts, _, q4) =
        >>=-eq-ok (proof_felt c proof.global_roots.contracts_tree_root) _ q3 in
      let (classes, _, q5) = >>=-eq-ok (proof_felt c proof.global_roots.classes_tree_root) _ q4 in
      let (e6, q6) = ensure-eq-ok (state_commitment c contracts classes == cp.state_root) _ _ q5 in
      let (_, _, q7) = >>=-eq-ok (check_address c cp.pool leaf.contract_address) _ q6 in
      let (_, _, q8) = >>=-eq-ok (check_address c cp.pool leaf.address) _ q7 in
      let (class_hash, _, q9) = >>=-eq-ok (proof_felt c leaf.class_hash) _ q8 in
      let (nonce, _, q10) = >>=-eq-ok (proof_felt c leaf.nonce) _ q9 in
      let (storage_root, _, q11) = >>=-eq-ok (proof_felt c leaf.storage_root) _ q10 in
      let (e12, q12) = ensure-eq-ok (not (class_hash == 0)) _ _ q11 in
      subst (λ (x : Result Claimed). elim x [ ok s ↦ Committed cp s | err _ ↦ Unit ]) q12
        (record { classes = classes; commits = (==_iff _ _).0 e6; deployed = ground arith })

  check_leaf-eq-ok :
      (k r n : Felt) (o : ProofOutcome) {x : Felt}
      → check_leaf c k r n o ≡ ok x
      → (o ≡ member (contract_leaf_hash c k x n)) × (r ≡ x)
  unfolding check_leaf
  check_leaf-eq-ok k r n non_member h = absurd (cc)
  check_leaf-eq-ok k r n (member l) h =
      let (e, q) = ensure-eq-ok (l == contract_leaf_hash c k r n) _ _ h in
      let s : r ≡ _ = cc in (rw (← s) (ap member ((==_iff _ _).0 e)), s)

module _ {Value : Type 0} (c : Crypto) (j : Json Value)
    (from_value : Value → Option ProofResult) where
  -- A root is only returned for a contract that the trusted block has deployed with that storage
  -- root.
  pub verify_checkpoint_lem :
      (cp : TrustedCheckpoint) (proof_json : Bytes) (m : List Bool → Felt) (classes root : Felt)
      → cp.state_root ≡ state_commitment c (root_of c tree_height m) classes
      → verify_checkpoint c j from_value cp proof_json ≡ some (ok root)
      → ((class_hash : Felt) × (nonce : Felt) × (class_hash ≢ 0)
          × (m (key_bits cp.pool) ≡ contract_leaf_hash c class_hash root nonce))
        ⊎ (Break c ⊎ PoseidonCollision c)
  unfolding verify_checkpoint
  verify_checkpoint_lem cp proof_json m classes root e h =
      let (_, _, q1) = lift-eq-ok (check_trusted cp) _ h in
      let (proof, _, q2) = lift-eq-ok (read_proof c j from_value proof_json) _ q1 in
      let (s, e3, q3) = lift-eq-ok (check_proof c cp proof) _ q2 in
      let (o, e4, q4) =
        lift_walk-eq-ok
          (verify_storage_proof c s.contracts_tree_root proof.contracts_proof.nodes cp.pool) _ q3 in
      let t : Committed c cp s = check_proof-Committed c cp proof e3 in
      let (e5, e6) = check_leaf-eq-ok c s.class_hash s.storage_root s.nonce o q4 in
      elim (state_commitment_binds c _ _ _ _ (t.commits ∙ e)) [
        | inr x ↦ inr (inr x)
        | inl r ↦
            elim (verify_storage_proof_sound c m proof.contracts_proof.nodes cp.pool o (
              subst
                (λ (y : Felt).
                  verify_storage_proof c y proof.contracts_proof.nodes cp.pool ≡ some (ok o))
                r e4)) [
                  | inr x ↦ inr (inl x)
                  | inl a ↦ inl (
                    s.class_hash,
                    s.nonce,
                    t.deployed,
                    subst (λ (p : ProofOutcome). Agrees p (m (key_bits cp.pool))) e5 a,
                  )
                ]
      ]

  -- Let the trusted state root commit to a contracts trie whose leaf for the pool is the leaf hash
  -- of a class, a storage root and a nonce. A root that the check of a proof returns is that
  -- storage root, or a collision of the Pedersen hash, of the node hash or of the Poseidon hash,
  -- or a node that hashes to zero, is at hand.
  pub verify_checkpoint_sound :
      (cp : TrustedCheckpoint) (proof_json : Bytes) (m : List Bool → Felt)
      (classes class_hash pool_root nonce root : Felt)
      → cp.state_root ≡ state_commitment c (root_of c tree_height m) classes
      → m (key_bits cp.pool) ≡ contract_leaf_hash c class_hash pool_root nonce
      → verify_checkpoint c j from_value cp proof_json ≡ some (ok root)
      → (root ≡ pool_root) ⊎ (PedersenCollision c ⊎ (Break c ⊎ PoseidonCollision c))
  verify_checkpoint_sound cp proof_json m classes k r n root e l h =
      elim (verify_checkpoint_lem cp proof_json m classes root e h) [
        | inr x ↦ inr (inr x)
        | inl (k', n', _, l') ↦ elim (contract_leaf_hash_binds c k' root n' k r n (sym l' ∙ l)) [
          | inl q ↦ inl q
          | inr x ↦ inr (inl x)
        ]
      ]
