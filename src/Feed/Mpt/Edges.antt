-- ===== src/Feed/Mpt/Edges.antt =====
-- What a node of the reference trie says of the map below it.
use strk20_indexer.Prelude.{
  ℕ, zero, suc, ◌+◌, ◌≤◌, ◌≡◌, refl, ◌∙◌, ap, subst, Bool, true, false, ◌&&◌, inl, inr, Option,
  none, some, not, List, [], ◌∷◌, ◌++◌, arith, length, ◌==◌, bool_eq, if◌then◌else◌, Bool-cases,
}
use strk20_indexer.Feed.Felt.{Felt, Crypto}
use strk20_indexer.Feed.Mpt.{SubNode, join, resolve, hash_of}
use strk20_indexer.Feed.Mpt.Spec.{spec, root_of}

-- `q` is the beginning of `k`
unfoldable pub starts : List Bool → List Bool → Bool
starts [] k = true
starts (b ∷ q) [] = false
starts (b ∷ q) (x ∷ k) = bool_eq b x && starts q k

module _ (c : Crypto) where
  join-none : (a b : Option SubNode) → join c a b ≡ none → (a ≡ none) × (b ≡ none)
  unfolding join
  join-none none none h = (refl, refl)
  join-none none (some y) h = cc
  join-none (some x) none h = cc
  join-none (some x) (some y) h = cc

  -- the three ways to a node
  pub data Joined (a b : Option SubNode) (s : SubNode) : Type 0 where
    both :
        (x y : SubNode)
        → a ≡ some x
        → b ≡ some y
        → s ≡ record { path = []; bottom = c.pedersen_hash (resolve c x) (resolve c y) }
        → Joined a b s
    one :
        (side : Bool) (x : SubNode)
        → (if side then b else a) ≡ some x
        → (if side then a else b) ≡ none
        → s ≡ record x { path = side ∷ x.path }
        → Joined a b s

  pub join-some : (a b : Option SubNode) {s : SubNode} → join c a b ≡ some s → Joined a b s
  unfolding join
  join-some none none h = cc
  join-some none (some y) h = one true y refl refl (cc)
  join-some (some x) none h = one false x refl refl (cc)
  join-some (some x) (some y) h = both x y refl refl (cc)

  pub spec-none :
      (n : ℕ) (m : List Bool → Felt) (k : List Bool) → spec c n m ≡ none → length k ≡ n → m k ≡ 0
  unfolding spec
  spec-none zero m [] h l = ground arith
  spec-none zero m (b ∷ k) h l = absurd (omega arith)
  spec-none (suc n) m [] h l = absurd (omega arith)
  spec-none (suc n) m (false ∷ k) h l = spec-none n _ k (join-none _ _ h).0 (omega arith)
  spec-none (suc n) m (true ∷ k) h l = spec-none n _ k (join-none _ _ h).1 (omega arith)

  -- `s` is the edge, of any length, at the top of the tree of `m`
  pub record IsTop (n : ℕ) (m : List Bool → Felt) (s : SubNode) : Type 0 where
    pub fits : length s.path ≤ n
    pub below : (r : ℕ) → r + length s.path ≡ n → root_of c r (λ j. m (s.path ++ j)) ≡ s.bottom
    pub off : (k : List Bool) → length k ≡ n → starts s.path k ≡ false → m k ≡ 0

  -- a node with no edge above it
  IsTop-nil :
      (n : ℕ) (m : List Bool → Felt) (v : Felt)
      → spec c n m ≡ some (record { path = []; bottom = v })
      → IsTop n m (record { path = []; bottom = v })
  unfolding starts root_of hash_of resolve
  IsTop-nil n m v h = record {
    fits = omega arith;
    below = λ r e. ap (λ (t : ℕ). hash_of c (spec c t m)) {x = r} {y = n} (omega arith) ∙ rw h refl;
    off = λ k l e. cc;
  }

  IsTop-cons :
      (n : ℕ) (m : List Bool → Felt) (side : Bool) (x : SubNode)
      → IsTop n (λ k. m (side ∷ k)) x
      → ((k : List Bool) → length k ≡ n → m (not side ∷ k) ≡ 0)
      → IsTop (suc n) m (record x { path = side ∷ x.path })
  unfolding starts
  IsTop-cons n m side x t z = record {
    fits = omega (arith, t.fits);
    below = λ r e. t.below r (omega arith);
    off = λ k l e. elsewhere side k l e z t.off;
  }
    where
      elsewhere :
          (b : Bool) (k : List Bool)
          → length k ≡ suc n
          → starts (b ∷ x.path) k ≡ false
          → ((j : List Bool) → length j ≡ n → m (not b ∷ j) ≡ 0)
          → ((j : List Bool) → length j ≡ n → starts x.path j ≡ false → m (b ∷ j) ≡ 0)
          → m k ≡ 0
      elsewhere b [] l e z' o = absurd (omega arith)
      elsewhere true (true ∷ j) l e z' o = o j (omega arith) e
      elsewhere true (false ∷ j) l e z' o = z' j (omega arith)
      elsewhere false (true ∷ j) l e z' o = z' j (omega arith)
      elsewhere false (false ∷ j) l e z' o = o j (omega arith) e

  one_side :
      (n : ℕ) (m : List Bool → Felt) (side : Bool) (x : SubNode)
      → (if side then spec c n (λ k. m (true ∷ k)) else spec c n (λ k. m (false ∷ k))) ≡ some x
      → (if side then spec c n (λ k. m (false ∷ k)) else spec c n (λ k. m (true ∷ k))) ≡ none
      → ((y : SubNode) (b : Bool) → spec c n (λ k. m (b ∷ k)) ≡ some y → IsTop n (λ k. m (b ∷ k)) y)
      → IsTop (suc n) m (record x { path = side ∷ x.path })
  one_side n m true x p q ih =
      IsTop-cons n m true x (ih x true p) (λ k l. spec-none n (λ j. m (false ∷ j)) k q l)
  one_side n m false x p q ih =
      IsTop-cons n m false x (ih x false p) (λ k l. spec-none n (λ j. m (true ∷ j)) k q l)

  leaf-IsTop : (m : List Bool → Felt) (s : SubNode) → spec c 0 m ≡ some s → IsTop 0 m s
  unfolding spec
  leaf-IsTop m s h = elim (Bool-cases (m [] == 0)) [
    | inl e ↦ absurd (cc (rw (e, spec) at h))
    | inr e ↦ subst (IsTop 0 m) (cc (rw (e, spec) at h)) (IsTop-nil 0 m (m []) (rw (e, spec) refl))
  ]

  pub spec-IsTop : (n : ℕ) (m : List Bool → Felt) (s : SubNode) → spec c n m ≡ some s → IsTop n m s
  unfolding spec
  spec-IsTop zero m s h = leaf-IsTop m s h
  spec-IsTop (suc n) m s h = elim (join-some _ _ h) [
    | both x y p q e ↦ rw e (IsTop-nil (suc n) m _ (h ∙ ap some e))
    | one side x p q e ↦ rw e (one_side n m side x p q (λ y b. spec-IsTop n (λ k. m (b ∷ k)) y))
  ]
