-- ===== src/Feed/Mpt/Binds.antt =====
-- A root binds the map that it commits to.
use strk20_indexer.Prelude.{
  ℕ, zero, suc, ◌+◌, ◌^◌, ◌≤◌, ◌<◌, ◌≡◌, ◌≢◌, ◌⊎◌, refl, sym, ◌∙◌, ap, ap₂, subst, Bool, true,
  false, inl, inr, List, [], ◌∷◌, ◌++◌, arith, length, length-append, bool_eq→eq, Bool-cases,
  ℕ_discrete, ◌==◌, ==_iff, if◌then◌else◌,
}
use strk20_indexer.Feed.Felt.{Felt, Crypto}
use strk20_indexer.Feed.Mpt.{SubNode, bits_to_felt, tree_height, hash_of, resolve, storage_root}
use strk20_indexer.Feed.Mpt.Spec.{spec, root_of}
use strk20_indexer.Feed.Mpt.Bits.{bits_to_felt-lt}
use strk20_indexer.Feed.Mpt.Edges.{starts, IsTop}
use strk20_indexer.Feed.Mpt.Sorted.{value_at}
use strk20_indexer.Feed.Mpt.Root.{storage_root-eq-root_of}
use strk20_indexer.Feed.Mpt.Nodes.{
  Break, Root, empty, branch, run, Root-cases, zero_root, binary_binds, edge_binds,
}

top_bit :
    (x y : Bool) (p q a b : ℕ)
    → p ≡ q
    → a < p
    → b < q
    → (if x then p else 0) + a ≡ (if y then q else 0) + b
    → (x ≡ y) × (a ≡ b)
top_bit true true p q a b e l m h = (refl, omega arith)
top_bit false false p q a b e l m h = (refl, omega arith)
top_bit true false p q a b e l m h = absurd (omega arith)
top_bit false true p q a b e l m h = absurd (omega arith)

-- paths of one length that stand for one number are the same
pub bits_to_felt_injective :
    (xs ys : List Bool) → length xs ≡ length ys → bits_to_felt xs ≡ bits_to_felt ys → xs ≡ ys
unfolding bits_to_felt
bits_to_felt_injective [] [] l h = refl
bits_to_felt_injective [] (y ∷ ys) l h = absurd (omega arith)
bits_to_felt_injective (x ∷ xs) [] l h = absurd (omega arith)
bits_to_felt_injective (x ∷ xs) (y ∷ ys) l h =
    let le : length xs ≡ length ys = omega (arith, l) in
    let pows : 2 ^ length xs ≡ 2 ^ length ys = ap (λ (n : ℕ). 2 ^ n) le in
    let small = bits_to_felt-lt xs in
    let small' = bits_to_felt-lt ys in
    let (bits, rest) = top_bit x y (2 ^ length xs) (2 ^ length ys) _ _ pows small small' h in
    ap₂ (λ (b : Bool) (bs : List Bool). b ∷ bs) bits (bits_to_felt_injective xs ys le rest)

-- a path with the prefix `q` continues it
starts_inv : (q k : List Bool) → starts q k ≡ true → (j : List Bool) × (k ≡ q ++ j)
unfolding starts
starts_inv [] k h = (k, refl)
starts_inv (b ∷ q) [] h = absurd (cc)
starts_inv (b ∷ q) (x ∷ k) h =
    let e : b ≡ x = bool_eq→eq b x (ground arith) in
    let (j, r) = starts_inv q k (ground arith) in
    (j, ap₂ (λ (y : Bool) (ys : List Bool). y ∷ ys) (sym e) r)

module _ (c : Crypto) where
  pub leaf_value : (m : List Bool → Felt) → root_of c 0 m ≡ m []
  unfolding root_of spec hash_of resolve
  leaf_value m = elim (Bool-cases (m [] == 0)) [
    | inl e ↦ rw e (sym ((==_iff _ _).0 e))
    | inr e ↦ rw e refl
  ]

  abbrev Agree : ℕ → (List Bool → Felt) → (List Bool → Felt) → Type 0
  Agree n m p = (k : List Bool) → length k ≡ n → (m k ≡ p k) ⊎ Break c

  -- agreement below a common top edge
  along :
      (n : ℕ) (m p : List Bool → Felt) (s t : SubNode)
      → IsTop c n m s
      → IsTop c n p t
      → s.path ≡ t.path
      → ((r : ℕ) → r + length s.path ≡ n → Agree r (λ j. m (s.path ++ j)) (λ j. p (s.path ++ j)))
      → Agree n m p
  along n m p s t a b e again k l = elim (Bool-cases (starts s.path k)) [
    | inr x ↦ inl (a.off k l x ∙ sym (b.off k l (ap (λ (q : List Bool). starts q k) (sym e) ∙ x)))
    | inl x ↦
        let (j, q) = starts_inv s.path k x in
        subst (λ (z : List Bool). (m z ≡ p z) ⊎ Break c) (sym q)
          (again (length j) (omega (arith, length-append s.path j, ap length q, l)) j refl)
  ]

  root_of-Agree :
      (fuel n : ℕ) (m p : List Bool → Felt) → n ≤ fuel → root_of c n m ≡ root_of c n p → Agree n m p
  root_of-Agree fuel zero m p le h [] l = inl (sym (leaf_value m) ∙ h ∙ leaf_value p)
  root_of-Agree fuel zero m p le h (b ∷ k) l = absurd (omega arith)
  root_of-Agree zero (suc n) m p le h k l = absurd (omega arith)
  root_of-Agree (suc fuel) (suc n) m p le h k l = elim (ℕ_discrete (root_of c (suc n) m) 0) [
    | yes z ↦ elim (zero_root c n m z k l) [
      | inr x ↦ inr x
      | inl u ↦ elim (zero_root c n p (sym h ∙ z) k l) [ inr x ↦ inr x | inl v ↦ inl (u ∙ sym v) ]
    ]
    | no nz ↦ of_root (root_of-Agree fuel) k l (Root-cases c n m) (λ e. nz (h ∙ e))
  ]
    where
      of_root :
          ((i : ℕ) (a b : List Bool → Felt)
            → i ≤ fuel
            → root_of c i a ≡ root_of c i b
            → Agree i a b)
          → (k : List Bool) → length k ≡ suc n
          → Root c n m
          → root_of c (suc n) p ≢ 0
          → (m k ≡ p k) ⊎ Break c
      of_root again k l (empty e z) nz = absurd (nz (sym h ∙ e))
      of_root again [] l (branch e) nz = absurd (omega arith)
      of_root again (b ∷ j) l (branch e) nz = elim (binary_binds c n p _ _ nz (sym e ∙ h)) [
        | inr x ↦ inr x
        | inl (u, v) ↦
            side b
              (again n (λ k. m (false ∷ k)) (λ k. p (false ∷ k)) (omega arith) u j (omega arith))
              (again n (λ k. m (true ∷ k)) (λ k. p (true ∷ k)) (omega arith) v j (omega arith))
      ]
        where
          side :
              (b : Bool)
              → (m (false ∷ j) ≡ p (false ∷ j)) ⊎ Break c
              → (m (true ∷ j) ≡ p (true ∷ j)) ⊎ Break c
              → (m (b ∷ j) ≡ p (b ∷ j)) ⊎ Break c
          side false x y = x
          side true x y = y
      of_root again k l (run s t q e) nz = elim (edge_binds c n p _ _ _ nz (sym e ∙ h)) [
        | inr x ↦ inr x
        | inl (s', t', bottom, path, len) ↦
            let same : s.path ≡ s'.path = bits_to_felt_injective s.path s'.path len path in
            along (suc n) m p s s' t t' same
              (λ r d.
                again r (λ j. m (s.path ++ j)) (λ j. p (s.path ++ j)) (omega (arith, d, q, le))
                  (t.below r d
                    ∙ bottom
                    ∙ sym (t'.below r (omega (arith, d, len)))
                    ∙ ap (λ (z : List Bool). root_of c r (λ j. p (z ++ j))) (sym same)))
              k l
      ]

  -- Two maps with the same root agree on every path of the tree's height, or a collision of the node
  -- hash or a node that hashes to zero is at hand.
  pub root_of_binds :
      (m p : List Bool → Felt) (k : List Bool)
      → root_of c tree_height m ≡ root_of c tree_height p
      → length k ≡ tree_height
      → (m k ≡ p k) ⊎ Break c
  root_of_binds m p k h l = root_of-Agree tree_height tree_height m p (omega arith) h k l

  -- Two slot sets with the same storage root give the same value to every path of a key, or a
  -- collision of the node hash or a node that hashes to zero is at hand.
  pub storage_root_binds :
      (xs ys : List (Felt × Felt)) (k : List Bool)
      → storage_root c xs ≡ storage_root c ys
      → length k ≡ tree_height
      → (value_at xs k ≡ value_at ys k) ⊎ Break c
  storage_root_binds xs ys k h l =
      root_of_binds (value_at xs) (value_at ys) k
        (sym (storage_root-eq-root_of c xs) ∙ h ∙ storage_root-eq-root_of c ys) l
