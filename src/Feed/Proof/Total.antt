-- ===== src/Feed/Proof/Total.antt =====
-- The walk of a storage proof ends: a round goes down at least one level of the tree.
use strk20_indexer.Prelude.{
  ℕ, zero, suc, ◌+◌, ◌≤◌, ◌<◌, ◌≡◌, ap, ◌∙◌, refl, Bool-cases, inl, inr, Option, lt→ltb, dec_lt, [],
  Option-cases, some, List, arith,
}
use strk20_indexer.Feed.Error.{malformed, Result, ok, err}
use strk20_indexer.Feed.Felt.{Felt, Crypto}
use strk20_indexer.Feed.Mpt.{tree_height, is_trie_key}
use strk20_indexer.Feed.Proof.{
  ProofNode, ProofNodeBody, binary, edge, ProofOutcome, member, settle, Nodes, Visit, done, next,
  get_node, index_nodes, visit, round, walk, walk_fuel, verify_storage_proof,
}

module _ (c : Crypto) where
  visit_descends :
      (key cur depth : ℕ) (body : ProofNodeBody) (cur' depth' : ℕ)
      → depth < tree_height
      → visit c key cur depth body ≡ ok (next cur' depth')
      → (depth < depth') × (depth' ≤ tree_height)
  unfolding visit
  visit_descends key cur depth (binary left right) cur' depth' l h = ground arith
  visit_descends key cur depth (edge path len child) cur' depth' l h = ground arith

  round_descends :
      (by_hash : Nodes) (key cur depth cur' depth' : ℕ)
      → depth < tree_height
      → round c by_hash key cur depth ≡ ok (next cur' depth')
      → (depth < depth') × (depth' ≤ tree_height)
  unfolding round
  round_descends by_hash key cur depth cur' depth' l h =
      elim (Option-cases (get_node by_hash cur)) [
        | inl e ↦ ground arith
        | inr (body, e) ↦ ground (arith, visit_descends key cur depth body cur' depth')
      ]

  pub walk_step :
      (fuel : ℕ) (by_hash : Nodes) (key cur depth : ℕ)
      → depth < tree_height
      → walk c (suc fuel) by_hash key cur depth
        ≡ settle (walk c fuel by_hash key) (round c by_hash key cur depth)
  unfolding walk
  walk_step fuel by_hash key cur depth h = rw (lt→ltb depth tree_height h, walk)

  pub walk_leaf :
      (fuel : ℕ) (by_hash : Nodes) (key cur : ℕ)
      → walk c (suc fuel) by_hash key cur tree_height ≡ some (ok (member cur))
  unfolding walk
  walk_leaf fuel by_hash key cur = refl

  settle_total :
      (again : Felt → ℕ → Option (Result ProofOutcome)) (v : Result Visit)
      → ((cur depth : ℕ)
          → v ≡ ok (next cur depth)
          → (r : Result ProofOutcome) × (again cur depth ≡ some r))
      → (r : Result ProofOutcome) × (settle again v ≡ some r)
  settle_total again (err e) h = (err e, refl)
  settle_total again (ok (done o)) h = (ok o, refl)
  settle_total again (ok (next cur depth)) h = h cur depth refl

  walk_total :
      (fuel : ℕ) (by_hash : Nodes) (key cur depth : ℕ)
      → tree_height < fuel + depth
      → depth ≤ tree_height
      → (r : Result ProofOutcome) × (walk c fuel by_hash key cur depth ≡ some r)
  walk_total zero by_hash key cur depth h l = absurd (omega arith)
  walk_total (suc fuel) by_hash key cur depth h l = elim (dec_lt depth tree_height) [
    | no e ↦ (
      ok (member cur),
      ap (walk c (suc fuel) by_hash key cur) (omega arith) ∙ walk_leaf fuel by_hash key cur,
    )
    | yes e ↦ rw (walk_step fuel by_hash key cur depth e) (
        settle_total (walk c fuel by_hash key) (round c by_hash key cur depth) λ cur' depth' v.
          let down = round_descends by_hash key cur depth cur' depth' e v in
          walk_total fuel by_hash key cur' depth' (omega arith) down.1)
  ]

  -- The check of a storage proof returns, with an outcome or an error, for every root, list of
  -- nodes and key.
  pub verify_storage_proof_total :
      (root : Felt) (nodes : List ProofNode) (key : Felt)
      → (r : Result ProofOutcome) × (verify_storage_proof c root nodes key ≡ some r)
  unfolding verify_storage_proof
  verify_storage_proof_total root nodes key = elim (Bool-cases (is_trie_key key)) [
    | inr e ↦ (refusal, rw e)
    | inl e ↦ rw e (indexed (index_nodes c nodes []))
  ]
    where
      refusal : Result ProofOutcome
      refusal = err (malformed "trie key is not below 2^251 and would alias another key")

      indexed :
          (ix : Result Nodes)
          → (r : Result ProofOutcome) × (elim ix [
            | err e ↦ some (err e)
            | ok by_hash ↦ walk c walk_fuel by_hash key root 0
          ]
              ≡ some r)
      indexed (err e) = (err e, refl)
      indexed (ok by_hash) = walk_total walk_fuel by_hash key root 0 (omega arith) (omega arith)
