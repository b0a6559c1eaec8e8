-- ===== src/Consumer/State/Grounded.antt =====
-- What a passed state check says of the mirror.
use strk20_indexer.Prelude.{
  ℕ, ◌≤◌, ◌≡◌, ◌⊎◌, refl, sym, ◌∙◌, ap, subst, inl, inr, Bool, true, false, Option, none, some,
  List, [], ◌∷◌, String, leb, leb→le, ◌==◌, ==_iff, str_eq, eq_iff, length, arith,
}
use strk20_indexer.Feed.Error.{Result, ok, err}
use strk20_indexer.Feed.Felt.{Felt, Crypto, felt_from_hex}
use strk20_indexer.Feed.Host.{Bytes, Json}
use strk20_indexer.Feed.Mpt.{tree_height, key_bits, storage_root}
use strk20_indexer.Feed.Mpt.Spec.{root_of}
use strk20_indexer.Feed.Mpt.Sorted.{value_at}
use strk20_indexer.Feed.Mpt.Root.{storage_root-eq-root_of}
use strk20_indexer.Feed.Mpt.Nodes.{Break}
use strk20_indexer.Feed.Mpt.Binds.{root_of_binds}
use strk20_indexer.Feed.Checkpoint.{
  TrustedCheckpoint, ProofResult, state_commitment, contract_leaf_hash, verify_checkpoint,
}
use strk20_indexer.Feed.Checkpoint.Bound.{
  PedersenCollision, PoseidonCollision, verify_checkpoint_sound,
}
use strk20_indexer.Feed.Codec.Parse.{and_then}
use strk20_indexer.Consumer.Reply.{
  Failure, bail, Reply, done, failed, from_feed, requiring-eq-done, with_value-eq-done,
}
use strk20_indexer.Consumer.Number.{parse_u64}
use strk20_indexer.Map.{meta_get}
use strk20_indexer.Consumer.Mem.{Inner, number_or_zero, read_slot_as_of, slots}
use strk20_indexer.Consumer.Mem.View.{full_slot_set_as_of, slot_set}
use strk20_indexer.Consumer.Mem.Generation.{meta_get-insert_self, meta_get-insert_ne}
use strk20_indexer.Consumer.State.{
  not_below, check_bound_above_basis, storage_root_at, is_chain, state_checks, set_meta,
  verify_state,
}

pub record IsChecked (c : Crypto) (cp : TrustedCheckpoint) (root : Felt) (g : Inner) : Type 0 where
  -- the block is one that the mirror can answer for
  pub above_basis :
      (basis : ℕ)
      → and_then (meta_get "snapshot_basis" g.meta) parse_u64 ≡ some basis
      → basis ≤ cp.block_number
  pub reached : cp.block_number ≤ number_or_zero (meta_get "head_number" g.meta)
  pub chain : meta_get "chain_id" g.meta ≡ some cp.chain_id
  pub pool : (s : String) × (meta_get "pool" g.meta ≡ some s) × (felt_from_hex c s ≡ ok cp.pool)
  pub state : storage_root c (full_slot_set_as_of cp.block_number g) ≡ root

chain_lem : (o : Option String) (s : String) → is_chain o s ≡ true → o ≡ some s
unfolding is_chain
chain_lem none s h = absurd (cc)
chain_lem (some t) s h = ap some ((eq_iff t s).0 h)

basis_lem :
    (o : Option ℕ) (block : ℕ)
    → not_below o block ≡ true
    → (basis : ℕ) → o ≡ some basis
    → basis ≤ block
unfolding not_below
basis_lem none block h basis q = absurd (cc)
basis_lem (some n) block h basis q = let same : n ≡ basis = cc in ground arith

from_feed-eq-done : {A : Type 0} (r : Result A) {a : A} → from_feed r ≡ done a → r ≡ ok a
from_feed-eq-done (ok a) q = cc
from_feed-eq-done (err e) q = absurd (cc)

read_pool : Crypto → Option String → Reply Felt
read_pool c o = elim o [
  | none ↦ failed (bail "missing pool")
  | some s ↦ from_feed (felt_from_hex c s)
]

read_pool_lem :
    (c : Crypto) (o : Option String) (pool : Felt)
    → read_pool c o ≡ done pool
    → (s : String) × (o ≡ some s) × (felt_from_hex c s ≡ ok pool)
unfolding read_pool
read_pool_lem c none pool q = absurd (cc)
read_pool_lem c (some s) pool q = (s, refl, from_feed-eq-done (felt_from_hex c s) q)

module _ (c : Crypto) (cp : TrustedCheckpoint) (root : Felt) where
  state_checks-IsChecked : (g : Inner) → state_checks c cp root g ≡ done tt → IsChecked c cp root g
  unfolding state_checks read_pool storage_root_at
  state_checks-IsChecked g q =
      let (_, e1, q1) = with_value-eq-done (check_bound_above_basis g cp.block_number) _ q in
      let (b1, _) =
        requiring-eq-done
          (not_below (and_then (meta_get "snapshot_basis" g.meta) parse_u64) cp.block_number) _ _
          e1 in
      let (e2, q2) =
        requiring-eq-done (leb cp.block_number (number_or_zero (meta_get "head_number" g.meta))) _ _
          q1 in
      let (e3, q3) = requiring-eq-done (is_chain (meta_get "chain_id" g.meta) cp.chain_id) _ _ q2 in
      let (pool, e4, q4) = with_value-eq-done (read_pool c (meta_get "pool" g.meta)) _ q3 in
      let (e5, q5) = requiring-eq-done (pool == cp.pool) _ _ q4 in
      let (e6, _) = requiring-eq-done (storage_root_at c g cp.block_number == root) _ _ q5 in
      let same : pool ≡ cp.pool = (==_iff _ _).0 e5 in
      record {
        above_basis = basis_lem _ cp.block_number b1;
        reached = leb→le _ _ e2;
        chain = chain_lem _ _ e3;
        pool =
            subst
              (λ (p : Felt).
                (s : String) × (meta_get "pool" g.meta ≡ some s) × (felt_from_hex c s ≡ ok p))
              same (read_pool_lem c _ pool e4);
        state = (==_iff _ _).0 e6;
      }

-- metadata is apart from the slots
read_meta :
    (key value : String) (g : Inner) (slot : Felt) (block : ℕ)
    → read_slot_as_of (set_meta key value g) slot block ≡ read_slot_as_of g slot block
unfolding read_slot_as_of set_meta
read_meta key value g slot block = refl

slot_set_meta :
    (key value : String) (g : Inner) (block : ℕ) (xs : List Felt)
    → slot_set (set_meta key value g) block xs ≡ slot_set g block xs
unfolding slot_set
slot_set_meta key value g block [] = refl
slot_set_meta key value g block (s ∷ r) =
    rw (read_meta key value g s block, slot_set_meta key value g block r) refl

slots_meta : (key value : String) (g : Inner) → slots (set_meta key value g) ≡ slots g
unfolding slots set_meta
slots_meta key value g = refl

full_slot_set_meta :
    (key value : String) (g : Inner) (block : ℕ)
    → full_slot_set_as_of block (set_meta key value g) ≡ full_slot_set_as_of block g
unfolding full_slot_set_as_of
full_slot_set_meta key value g block =
    rw (slots_meta key value g) (slot_set_meta key value g block (slots g))

other_meta :
    (key other value : String) (g : Inner)
    → str_eq other key ≡ false
    → meta_get key (set_meta other value g).meta ≡ meta_get key g.meta
unfolding set_meta
other_meta key other value g n = meta_get-insert_ne key other value g.meta n

own_meta : (key value : String) (g : Inner) → meta_get key (set_meta key value g).meta ≡ some value
unfolding set_meta
own_meta key value g = meta_get-insert_self key value g.meta

IsChecked-unmarked :
    (c : Crypto) (cp : TrustedCheckpoint) (root : Felt) (g : Inner)
    → IsChecked c cp root (set_meta "verification_failed" "1" g)
    → IsChecked c cp root g
IsChecked-unmarked c cp root g k =
    let (s, p, f) = k.pool in
    record {
      above_basis = λ b q. k.above_basis b (
          ap (λ o. and_then o parse_u64)
            (other_meta "snapshot_basis" "verification_failed" "1" g refl)
          ∙ q);
      reached =
          subst (λ (o : Option String). cp.block_number ≤ number_or_zero o)
            (other_meta "head_number" "verification_failed" "1" g refl) k.reached;
      chain = sym (other_meta "chain_id" "verification_failed" "1" g refl) ∙ k.chain;
      pool = (s, sym (other_meta "pool" "verification_failed" "1" g refl) ∙ p, f);
      state =
          ap (storage_root c) (sym (full_slot_set_meta "verification_failed" "1" g cp.block_number))
          ∙ k.state;
    }

module _ (to_text : TrustedCheckpoint → String) (c : Crypto) where
  -- A state check leaves the mark of a failure behind unless it passes, whatever the mark was before.
  -- If it passes, the mirror is about the checkpoint's chain and pool, its head has reached the block,
  -- which is not below the snapshot's basis, and its slot set there has the expected root.
  pub verify_state_lem :
      (cp : TrustedCheckpoint) (root : Felt) (g : Inner)
      → (((verify_state to_text c cp root g).0 ≡ done tt)
          × (meta_get "verification_failed" (verify_state to_text c cp root g).1.meta ≡ some "0")
          × IsChecked c cp root g)
        ⊎ ((e : Failure) × ((verify_state to_text c cp root g).0 ≡ failed e)
            × (meta_get "verification_failed" (verify_state to_text c cp root g).1.meta ≡ some "1"))
  unfolding verify_state
  verify_state_lem cp root g = of (state_checks c cp root marked) refl
    where
      marked : Inner
      marked = set_meta "verification_failed" "1" g

      of :
          (r : Reply (Unit {0}))
          → state_checks c cp root marked ≡ r
          → (((verify_state to_text c cp root g).0 ≡ done tt)
              × (meta_get "verification_failed" (verify_state to_text c cp root g).1.meta
                  ≡ some "0")
              × IsChecked c cp root g)
            ⊎ ((e : Failure) × ((verify_state to_text c cp root g).0 ≡ failed e)
                × (meta_get "verification_failed" (verify_state to_text c cp root g).1.meta
                    ≡ some "1"))
      of (failed e) q = inr (
        e,
        rw (verify_state, q) refl,
        rw (verify_state, q) (own_meta "verification_failed" "1" g),
      )
      of (done _) q = inl (
        rw (verify_state, q) refl,
        rw (verify_state, q) (own_meta "verification_failed" "0" _),
        IsChecked-unmarked c cp root g (state_checks-IsChecked c cp root marked q),
      )

  passed :
      (cp : TrustedCheckpoint) (root : Felt) (g : Inner)
      → (verify_state to_text c cp root g).0 ≡ done tt
      → IsChecked c cp root g
  passed cp root g q = elim (verify_state_lem cp root g) [
    | inl (_, _, k) ↦ k
    | inr (e, r, _) ↦ absurd (cc)
  ]

  -- The mirror that passes holds the pool's storage. Let the trusted state root commit to a contracts
  -- trie whose leaf for the pool carries the root of the storage `p`, let the proof be accepted with
  -- some root and the mirror pass the check against it. Then the mirror's slot set at the block gives
  -- the value that `p` has to every path of a key, or a hash collision is at hand.
  pub verify_state-verify_checkpoint :
      {Value : Type 0} (j : Json Value) (from_value : Value → Option ProofResult)
      (cp : TrustedCheckpoint) (proof_json : Bytes) (contracts p : List Bool → Felt)
      (classes class_hash nonce root : Felt) (g : Inner) (k : List Bool)
      → cp.state_root ≡ state_commitment c (root_of c tree_height contracts) classes
      → contracts (key_bits cp.pool)
        ≡ contract_leaf_hash c class_hash (root_of c tree_height p) nonce
      → verify_checkpoint c j from_value cp proof_json ≡ some (ok root)
      → (verify_state to_text c cp root g).0 ≡ done tt
      → length k ≡ tree_height
      → (value_at (full_slot_set_as_of cp.block_number g) k ≡ p k)
        ⊎ (PedersenCollision c ⊎ (Break c ⊎ PoseidonCollision c))
  verify_state-verify_checkpoint j from_value cp proof_json contracts p classes class_hash nonce
        root g k e l v q w =
      elim (verify_checkpoint_sound c j from_value cp proof_json contracts classes class_hash _
        nonce root e l v) [
          | inr x ↦ inr x
          | inl r ↦
              let mine = passed cp root g q in
              elim (root_of_binds c (value_at (full_slot_set_as_of cp.block_number g)) p k
                (sym (storage_root-eq-root_of c _) ∙ mine.state ∙ r) w) [
                  | inl y ↦ inl y
                  | inr b ↦ inr (inr (inl b))
                ]
        ]
