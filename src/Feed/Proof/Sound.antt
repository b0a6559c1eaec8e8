-- ===== src/Feed/Proof/Sound.antt =====
-- What an accepted storage proof says: the value of the key under the root, or its absence.
use strk20_indexer.Prelude.{
  ℕ, zero, suc, ◌+◌, ◌-◌, ◌≡◌, ◌⊎◌, refl, sym, ◌∙◌, ap, ap₂, subst, Bool, true, false, not, inl,
  inr, Option, some, List, [], ◌∷◌, ◌++◌, arith, length, if◌then◌else◌, Bool-cases,
}
use strk20_indexer.Feed.Error.{Result, ok, err}
use strk20_indexer.Feed.Felt.{Felt, Crypto}
use strk20_indexer.Feed.Mpt.{
  tree_height, key_bit, key_bits_from, key_bits, is_trie_key, bits_to_felt, SubNode, storage_root,
}
use strk20_indexer.Feed.Mpt.Spec.{root_of}
use strk20_indexer.Feed.Mpt.Sorted.{value_at, length-key_bits_from}
use strk20_indexer.Feed.Mpt.Root.{storage_root-eq-root_of}
use strk20_indexer.Feed.Mpt.Edges.{starts, IsTop}
use strk20_indexer.Feed.Mpt.Nodes.{Break, zero_root, binary_binds, edge_binds}
use strk20_indexer.Feed.Proof.{
  ProofNode, ProofOutcome, member, non_member, Nodes, Visit, done, next, settle, diverges,
  index_nodes, walk, walk_fuel, verify_storage_proof,
}
use strk20_indexer.Feed.Proof.Total.{walk_step, walk_leaf}
use strk20_indexer.Feed.Proof.Visits.{Visited, at_empty, at_binary, at_edge, round-Visited}
use strk20_indexer.Feed.Proof.Paths.{diverges_lem, key_bits_from-append}
use strk20_indexer.Feed.Mpt.Binds.{leaf_value}

-- what the outcome says of the value of the key
abbrev pub Agrees : ProofOutcome → Felt → Type 0
Agrees (member v) x = x ≡ v
Agrees non_member x = x ≡ 0

-- how a round leads to an outcome
settle_inv :
    (again : Felt → ℕ → Option (Result ProofOutcome)) (v : Result Visit) (o : ProofOutcome)
    → settle again v ≡ some (ok o)
    → (v ≡ ok (done o))
      ⊎ ((cur : Felt) × (depth : ℕ) × (v ≡ ok (next cur depth)) × (again cur depth ≡ some (ok o)))
settle_inv again (err e) o h = cc
settle_inv again (ok (done p)) o h = inl cc
settle_inv again (ok (next cur depth)) o h = inr (cur, depth, refl, h)

next_inj : {a b x y : ℕ} → next a b ≡ next x y → (a ≡ x) × (b ≡ y)
next_inj h = ((cc), cc)

module _ (c : Crypto) where
  module _ (key depth n : ℕ) (m : List Bool → Felt) (d : suc n + depth ≡ tree_height) where
    abbrev rest_of_key : List Bool
    rest_of_key = key_bits_from key depth (suc n)

    length-rest_of_key : length rest_of_key ≡ suc n
    length-rest_of_key = length-key_bits_from key depth (suc n)

    diverges_whole :
        (s : SubNode) (path len : ℕ)
        → IsTop c (suc n) m s
        → path ≡ bits_to_felt s.path
        → len ≡ length s.path
        → diverges path len key depth 0 len ≡ not (starts s.path rest_of_key)
    diverges_whole s path len t p l =
        ap (diverges path len key depth 0) l
        ∙ diverges_lem [] s.path path len key depth 0 (suc n) p (omega arith) (omega arith) t.fits
        ∙ ap (λ (x : ℕ). not (starts s.path (key_bits_from key x (suc n)))) {x = depth + 0}
            {y = depth} (omega arith)

    done_sound :
        (cur : Felt) (o : ProofOutcome)
        → cur ≡ root_of c (suc n) m
        → Visited c key cur depth (done o)
        → Agrees o (m rest_of_key) ⊎ Break c
    done_sound cur o e (at_empty z v) =
        rw (outcome v) (zero_root c n m (sym e ∙ z) rest_of_key length-rest_of_key)
      where
        outcome : done o ≡ done non_member → o ≡ non_member
        outcome q = cc
    done_sound cur o e (at_binary l r nz q v) = absurd (cc)
    done_sound cur o e (at_edge path len child nz l1 l2 q v) =
        elim (edge_binds c n m child path len (λ z. nz (e ∙ z)) (q ∙ e)) [
          | inr b ↦ inr b
          | inl (s, t, q1, q2, q3) ↦ off_path s t (diverges_whole s path len t q2 q3) v
        ]
      where
        off_path :
            (s : SubNode)
            → IsTop c (suc n) m s
            → diverges path len key depth 0 len ≡ not (starts s.path rest_of_key)
            → done o ≡ (
                if diverges path len key depth 0 len
                then done non_member
                else next child (depth + len))
            → Agrees o (m rest_of_key) ⊎ Break c
        off_path s t w v' = elim (Bool-cases (starts s.path rest_of_key)) [
          | inl y ↦ absurd (cc (rw (w, y) at v'))
          | inr y ↦
              let outcome : o ≡ non_member = cc (rw (w, y) at v') in
              rw outcome (inl (t.off rest_of_key length-rest_of_key y))
        ]

    abbrev Again : Nodes → ℕ → Type 0
    Again by_hash fuel =
        (n' : ℕ) (m' : List Bool → Felt) (cur' depth' : ℕ) (o : ProofOutcome)
        → n' + depth' ≡ tree_height
        → cur' ≡ root_of c n' m'
        → walk c fuel by_hash key cur' depth' ≡ some (ok o)
        → Agrees o (m' (key_bits_from key depth' n')) ⊎ Break c

    next_sound :
        (by_hash : Nodes) (fuel : ℕ) (cur cur' depth' : ℕ) (o : ProofOutcome)
        → Again by_hash fuel
        → cur ≡ root_of c (suc n) m
        → Visited c key cur depth (next cur' depth')
        → walk c fuel by_hash key cur' depth' ≡ some (ok o)
        → Agrees o (m rest_of_key) ⊎ Break c
    unfolding key_bits_from
    next_sound by_hash fuel cur cur' depth' o again e (at_empty z v) h = absurd (cc)
    next_sound by_hash fuel cur cur' depth' o again e (at_binary l r nz q v) h =
        elim (binary_binds c n m l r (λ z. nz (e ∙ z)) (q ∙ e)) [
          | inr b ↦ inr b
          | inl (q1, q2) ↦
              let (vc, vd) = next_inj v in
              elim (Bool-cases (key_bit key depth)) [
                | inl bit ↦ child true bit vd (
                    again n (λ k. m (true ∷ k)) cur' depth' o (omega (arith, vd))
                      (rw bit at vc ∙ q2) h)
                | inr bit ↦ child false bit vd (
                    again n (λ k. m (false ∷ k)) cur' depth' o (omega (arith, vd))
                      (rw bit at vc ∙ q1) h)
              ]
        ]
      where
        child :
            (b : Bool)
            → key_bit key depth ≡ b
            → depth' ≡ depth + 1
            → Agrees o (m (b ∷ key_bits_from key depth' n)) ⊎ Break c
            → Agrees o (m rest_of_key) ⊎ Break c
        child b bit vd x =
            subst (λ (k : List Bool). Agrees o (m k) ⊎ Break c)
              (ap₂ (λ (y : Bool) (z : ℕ). y ∷ key_bits_from key z n) {u = depth'} {v = suc depth}
                (sym bit) (omega (arith, vd)))
              x
    next_sound by_hash fuel cur cur' depth' o again e (at_edge path len child nz l1 l2 q v) h =
        elim (edge_binds c n m child path len (λ z. nz (e ∙ z)) (q ∙ e)) [
          | inr b ↦ inr b
          | inl (s, t, q1, q2, q3) ↦ on_path s t q1 q3 (diverges_whole s path len t q2 q3) v
        ]
      where
        on_path :
            (s : SubNode)
            → IsTop c (suc n) m s
            → child ≡ s.bottom
            → len ≡ length s.path
            → diverges path len key depth 0 len ≡ not (starts s.path rest_of_key)
            → next cur' depth' ≡ (
                if diverges path len key depth 0 len
                then done non_member
                else next child (depth + len))
            → Agrees o (m rest_of_key) ⊎ Break c
        on_path s t q1 q3 w v' = elim (Bool-cases (starts s.path rest_of_key)) [
          | inr y ↦ absurd (cc (rw (w, y) at v'))
          | inl y ↦
              let (vc, vd) = next_inj (rw (w, y) at v') in
              let r : ℕ = suc n - len in
              subst (λ (k : List Bool). Agrees o (m k) ⊎ Break c)
                (sym (
                  key_bits_from-append s.path key depth (suc n) r (omega (arith, q3, t.fits)) y
                  ∙ ap (λ (x : ℕ). s.path ++ key_bits_from key x r) {x = depth + length s.path}
                      {y = depth'} (omega (arith, vd, q3))))
                (again r (λ j. m (s.path ++ j)) cur' depth' o (omega (arith, vd, q3, t.fits))
                  (vc ∙ q1 ∙ sym (t.below r (omega (arith, q3, t.fits)))) h)
        ]

  walk_sound :
      (fuel : ℕ) (by_hash : Nodes) (key n : ℕ) (m : List Bool → Felt) (cur depth : ℕ)
      (o : ProofOutcome)
      → n + depth ≡ tree_height
      → cur ≡ root_of c n m
      → walk c fuel by_hash key cur depth ≡ some (ok o)
      → Agrees o (m (key_bits_from key depth n)) ⊎ Break c
  unfolding walk key_bits_from
  walk_sound zero by_hash key n m cur depth o d e h = absurd (cc)
  walk_sound (suc fuel) by_hash key zero m cur depth o d e h = inl (leaf o refl)
    where
      outcome : o ≡ member cur
      outcome = cc (
          sym (walk_leaf c fuel by_hash key cur)
          ∙ ap (walk c (suc fuel) by_hash key cur) {x = tree_height} {y = depth} (omega arith)
          ∙ h)

      leaf : (p : ProofOutcome) → p ≡ o → Agrees p (m [])
      leaf (member w) q = sym (leaf_value c m) ∙ sym e ∙ (cc outcome)
      leaf non_member q = absurd (cc outcome)
  walk_sound (suc fuel) by_hash key (suc n) m cur depth o d e h =
      elim (settle_inv _ _ o (sym (walk_step c fuel by_hash key cur depth (omega arith)) ∙ h)) [
        | inl v ↦ done_sound key depth n m d cur o e (round-Visited c key cur depth by_hash v)
        | inr (cur', depth', v, h') ↦
            next_sound key depth n m d by_hash fuel cur cur' depth' o (walk_sound fuel by_hash key)
              e (round-Visited c key cur depth by_hash v) h'
      ]

  -- An accepted proof against the commitment of a map gives the value of the key in the map, or its
  -- absence, unless it exhibits a collision of the node hash or a node that hashes to zero.
  pub verify_storage_proof_sound :
      (m : List Bool → Felt) (nodes : List ProofNode) (key : Felt) (o : ProofOutcome)
      → verify_storage_proof c (root_of c tree_height m) nodes key ≡ some (ok o)
      → Agrees o (m (key_bits key)) ⊎ Break c
  unfolding verify_storage_proof key_bits
  verify_storage_proof_sound m nodes key o h = elim (Bool-cases (is_trie_key key)) [
    | inr e ↦ absurd (cc (rw e at h))
    | inl e ↦ indexed (index_nodes c nodes []) (rw e at h)
  ]
    where
      indexed :
          (ix : Result Nodes)
          → elim ix [
            | err e ↦ some (err e)
            | ok by_hash ↦ walk c walk_fuel by_hash key (root_of c tree_height m) 0
          ]
            ≡ some (ok o)
          → Agrees o (m (key_bits_from key 0 tree_height)) ⊎ Break c
      indexed (err e) q = absurd (cc)
      indexed (ok by_hash) q =
          walk_sound walk_fuel by_hash key tree_height m _ 0 o (omega arith) refl q

  -- An accepted storage proof against the root that is recomputed from a slot set gives the value
  -- of the key in the set, or says that the set gives it zero, unless a collision of the node hash
  -- or a node that hashes to zero is at hand.
  pub verify_storage_proof-storage_root :
      (slots : List (Felt × Felt)) (nodes : List ProofNode) (key : Felt) (o : ProofOutcome)
      → verify_storage_proof c (storage_root c slots) nodes key ≡ some (ok o)
      → Agrees o (value_at slots (key_bits key)) ⊎ Break c
  verify_storage_proof-storage_root slots nodes key o h =
      verify_storage_proof_sound (value_at slots) nodes key o (
        subst (λ (r : Felt). verify_storage_proof c r nodes key ≡ some (ok o))
          (storage_root-eq-root_of c slots) h)
