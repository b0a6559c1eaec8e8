-- ===== src/Feed/Mpt/Spec.antt =====
-- The reference trie of a map from paths to values: the commitment that mpt.rs is to compute.
use strk20_indexer.Prelude.{
  ℕ, zero, suc, Bool, true, false, Option, none, some, List, [], ◌∷◌, ◌==◌, if◌then◌else◌,
}
use strk20_indexer.Feed.Felt.{Felt, Crypto}
use strk20_indexer.Feed.Mpt.{SubNode, join, hash_of}

module _ (c : Crypto) where
  -- a tree of height `n` over every path, zero where the map is empty
  unfoldable pub spec : ℕ → (List Bool → Felt) → Option SubNode
  spec zero m = if m [] == 0 then none else some (record { path = []; bottom = m [] })
  spec (suc n) m = join c (spec n (λ k. m (false ∷ k))) (spec n (λ k. m (true ∷ k)))

  unfoldable pub root_of : ℕ → (List Bool → Felt) → Felt
  root_of n m = hash_of c (spec n m)
