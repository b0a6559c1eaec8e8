-- ===== src/Feed/Mpt/Nodes.antt =====
-- The hash of a node binds its children: a second opening of a hash is a collision of the node
-- hash, and so is every other way to cheat. No property of the hash function is assumed.
use strk20_indexer.Prelude.{
  ℕ, suc, ◌≤◌, ◌≡◌, ◌≢◌, ◌⊎◌, refl, sym, ◌∙◌, ap, Bool, true, false, inl, inr, some, List, ◌∷◌,
  arith, length, Option-cases, ℕ_discrete,
}
use strk20_indexer.Feed.Felt.{Felt, Crypto}
use strk20_indexer.Feed.Mpt.{SubNode, bits_to_felt, binary_hash, edge_hash, resolve, join, hash_of}
use strk20_indexer.Feed.Mpt.Spec.{spec, root_of}
use strk20_indexer.Feed.Mpt.Edges.{Joined, both, one, join-some, spec-none, IsTop, spec-IsTop}

-- what a node hash is taken of
pub data Preimage : Type 0 where
  two_children : (left right : Felt) → Preimage
  labelled : (child path : Felt) (len : ℕ) → Preimage

Preimage-discrete : Discrete Preimage
Preimage-discrete = hlevel ℕ_discrete

module _ (c : Crypto) where
  abbrev pub node_hash_of : Preimage → Felt
  node_hash_of (two_children l r) = binary_hash c l r
  node_hash_of (labelled d p len) = edge_hash c d p len

  pub record Collision : Type 0 where
    pub first : Preimage
    pub second : Preimage
    pub differ : first ≢ second
    pub same : node_hash_of first ≡ node_hash_of second

  -- a node whose hash is that of the empty tree
  pub record ZeroHash : Type 0 where
    pub node : Preimage
    pub is_zero : node_hash_of node ≡ 0

  abbrev pub Break : Type 0
  Break = Collision ⊎ ZeroHash

  -- the root of a tree with a level to go
  pub data Root (n : ℕ) (m : List Bool → Felt) : Type 0 where
    empty : root_of c (suc n) m ≡ 0 → ((k : List Bool) → length k ≡ suc n → m k ≡ 0) → Root n m
    branch :
        root_of c (suc n) m
          ≡ binary_hash c (root_of c n (λ k. m (false ∷ k))) (root_of c n (λ k. m (true ∷ k)))
        → Root n m
    run :
        (s : SubNode)
        → IsTop c (suc n) m s
        → 1 ≤ length s.path
        → root_of c (suc n) m ≡ edge_hash c s.bottom (bits_to_felt s.path) (length s.path)
        → Root n m

  both_root :
      (n : ℕ) (m : List Bool → Felt) (x y : SubNode)
      → spec c n (λ k. m (false ∷ k)) ≡ some x
      → spec c n (λ k. m (true ∷ k)) ≡ some y
      → root_of c (suc n) m
        ≡ binary_hash c (root_of c n (λ k. m (false ∷ k))) (root_of c n (λ k. m (true ∷ k)))
  unfolding root_of spec join hash_of resolve binary_hash
  both_root n m x y p q = rw (p, q)

  edge_root :
      (n : ℕ) (m : List Bool → Felt) (b : Bool) (p : List Bool) (v : Felt)
      → spec c n m ≡ some (record { path = b ∷ p; bottom = v })
      → root_of c n m ≡ edge_hash c v (bits_to_felt (b ∷ p)) (length (b ∷ p))
  unfolding root_of hash_of resolve edge_hash
  edge_root n m b p v h = rw h

  top-Root :
      (n : ℕ) (m : List Bool → Felt) (s : SubNode)
      → spec c (suc n) m ≡ some s
      → Joined c (spec c n (λ k. m (false ∷ k))) (spec c n (λ k. m (true ∷ k))) s
      → Root n m
  top-Root n m s h (both x y p q e) = branch (both_root n m x y p q)
  top-Root n m s h (one side x p q e) =
      run _ (rw e at (spec-IsTop c (suc n) m s h)) (omega arith)
        (edge_root (suc n) m side x.path x.bottom (h ∙ ap some e))

  pub Root-cases : (n : ℕ) (m : List Bool → Felt) → Root n m
  unfolding root_of spec hash_of
  Root-cases n m = elim (Option-cases (spec c (suc n) m)) [
    | inl e ↦ empty (rw (e, hash_of) refl) (λ k l. spec-none c (suc n) m k e l)
    | inr (s, e) ↦ top-Root n m s e (join-some c _ _ e)
  ]

  -- Two openings of one hash are the same, or a collision is at hand.
  binds : (x y : Preimage) → node_hash_of x ≡ node_hash_of y → (x ≡ y) ⊎ Break
  binds x y h = elim (Preimage-discrete x y) [
    | yes e ↦ inl e
    | no n ↦ inr (inl (record { first = x; second = y; differ = n; same = h }))
  ]

  module _ (n : ℕ) (m : List Bool → Felt) where
    -- An empty root is that of an empty map.
    pub zero_root : root_of c (suc n) m ≡ 0 → (k : List Bool) → length k ≡ suc n → (m k ≡ 0) ⊎ Break
    zero_root h k l = elim (Root-cases n m) [
      | empty e z ↦ inl (z k l)
      | branch e ↦ inr (inr (record { node = two_children _ _; is_zero = sym e ∙ h }))
      | run s t p e ↦ inr (inr (record { node = labelled _ _ _; is_zero = sym e ∙ h }))
    ]

    -- A binary node with the hash of the root has the roots of the two subtrees.
    pub binary_binds :
        (l r : Felt)
        → root_of c (suc n) m ≢ 0
        → binary_hash c l r ≡ root_of c (suc n) m
        → ((l ≡ root_of c n (λ k. m (false ∷ k))) × (r ≡ root_of c n (λ k. m (true ∷ k)))) ⊎ Break
    binary_binds l r nz h = elim (Root-cases n m) [
      | empty e z ↦ absurd (nz e)
      | branch e ↦ elim (binds (two_children l r) (two_children _ _) (h ∙ e)) [
        | inl q ↦ inl ((cc), cc)
        | inr b ↦ inr b
      ]
      | run s t p e ↦ elim (binds (two_children l r) (labelled _ _ _) (h ∙ e)) [
        | inl q ↦ absurd (cc)
        | inr b ↦ inr b
      ]
    ]

    -- An edge node with the hash of the root is the edge at the top of the tree.
    pub edge_binds :
        (child path len : ℕ)
        → root_of c (suc n) m ≢ 0
        → edge_hash c child path len ≡ root_of c (suc n) m
        → ((s : SubNode) × IsTop c (suc n) m s
            × (child ≡ s.bottom)
            × (path ≡ bits_to_felt s.path)
            × (len ≡ length s.path))
          ⊎ Break
    edge_binds child path len nz h = elim (Root-cases n m) [
      | empty e z ↦ absurd (nz e)
      | branch e ↦ elim (binds (labelled child path len) (two_children _ _) (h ∙ e)) [
        | inl q ↦ absurd (cc)
        | inr b ↦ inr b
      ]
      | run s t p e ↦ elim (binds (labelled child path len) (labelled _ _ _) (h ∙ e)) [
        | inl q ↦ inl (s, t, (cc), (cc), cc)
        | inr b ↦ inr b
      ]
    ]
