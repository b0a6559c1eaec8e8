-- ===== src/Feed/Trie/Holds.antt =====
-- When a node of the cached tree stands for a map from paths to values.
use strk20_indexer.Prelude.{
  ℕ, suc, ◌+◌, ◌≤◌, ◌<◌, ◌≡◌, ◌≢◌, refl, sym, ◌∙◌, Bool, true, false, not, List, [], ◌∷◌, arith,
  length,
}
use strk20_indexer.Feed.Felt.{Felt, Crypto}
use strk20_indexer.Feed.Mpt.{binary_hash}
use strk20_indexer.Feed.Trie.{Key, Node, leaf, branch, bit, key_of, depth_of, own_hash, hash_at}

-- the keys share their first `n` bits
abbrev pub Agree : ℕ → Key → Key → Type 0
Agree n a b = (d : ℕ) → d < n → bit a d ≡ bit b d

module _ (c : Crypto) where
  -- The node, entered at depth `s` with `n` levels left, holds the map `m`: each branch has the hash
  -- of its children, its key shares its bits above with every key below, and the levels that it
  -- skips have nothing on the other side.
  pub data Holds : ℕ → ℕ → Node → (List Bool → Felt) → Type 0 where
    at_leaf :
        {s : ℕ} {key : Key} {v : Felt} {m : List Bool → Felt}
        → v ≢ 0
        → m [] ≡ v
        → Holds 0 s (leaf key v) m
    fork :
        {n s : ℕ} {l r : Node} {h : Felt} {m : List Bool → Felt}
        → h ≡ binary_hash c (hash_at c l (suc s)) (hash_at c r (suc s))
        → bit (key_of l) s ≡ false
        → bit (key_of r) s ≡ true
        → Agree s (key_of l) (key_of r)
        → Holds n (suc s) l (λ k. m (false ∷ k))
        → Holds n (suc s) r (λ k. m (true ∷ k))
        → Holds (suc n) s (branch (key_of l) s h l r) m
    skip :
        {n s : ℕ} {t : Node} {m : List Bool → Felt} (b : Bool)
        → bit (key_of t) s ≡ b
        → Holds n (suc s) t (λ k. m (b ∷ k))
        → ((k : List Bool) → length k ≡ n → m (not b ∷ k) ≡ 0)
        → Holds (suc n) s t m

  -- Only the paths of the height count.
  pub Holds-ext :
      {n s : ℕ} {t : Node} {m : List Bool → Felt} (m' : List Bool → Felt)
      → Holds n s t m
      → ((k : List Bool) → length k ≡ n → m' k ≡ m k)
      → Holds n s t m'
  Holds-ext m' (at_leaf nz e) q = at_leaf nz (q [] refl ∙ e)
  Holds-ext m' (fork h x y a l r) q =
      fork h x y a (Holds-ext _ l (λ k e. q (false ∷ k) (omega arith)))
        (Holds-ext _ r (λ k e. q (true ∷ k) (omega arith)))
  Holds-ext m' (skip b x t z) q =
      skip b x (Holds-ext _ t (λ k e. q (b ∷ k) (omega arith)))
        (λ k e. q (not b ∷ k) (omega arith) ∙ z k e)

  pub Holds-depth :
      {n s : ℕ} {t : Node} {m : List Bool → Felt}
      → Holds n s t m
      → n + s ≡ 251
      → (s ≤ depth_of t) × (depth_of t ≤ 251)
  Holds-depth (at_leaf nz e) q = (omega arith, omega arith)
  Holds-depth (fork h x y a l r) q = (omega arith, omega arith)
  Holds-depth (skip b x t z) q = let d = Holds-depth t (omega arith) in (omega (arith, d.0), d.1)

  -- Something is held.
  pub own_hash-leaf : {s : ℕ} {t : Node} {m : List Bool → Felt} → Holds 0 s t m → own_hash t ≡ m []
  own_hash-leaf (at_leaf nz e) = sym e
