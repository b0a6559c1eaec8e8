-- ===== src/Feed/Trie/Commit.antt =====
-- The hash of a node that holds a map is the commitment of the map.
use strk20_indexer.Prelude.{
  ℕ, zero, suc, ◌+◌, ◌-◌, ◌≤◌, ◌<◌, ◌≡◌, refl, sym, ◌∙◌, ap, ap₂, Bool, true, false, not, inl, inr,
  none, some, List, [], ◌∷◌, arith, length, ◌==◌, Bool-cases, ne→==_false, if◌then◌else◌,
}
use strk20_indexer.Feed.Felt.{Felt, Crypto}
use strk20_indexer.Feed.Mpt.{
  SubNode, binary_hash, edge_hash, bits_to_felt, key_bit, key_bits_from, join, resolve, hash_of,
}
use strk20_indexer.Feed.Mpt.Spec.{spec, root_of}
use strk20_indexer.Feed.Mpt.Root.{spec-zero}
use strk20_indexer.Feed.Mpt.Sorted.{length-key_bits_from}
use strk20_indexer.Feed.Trie.{Key, Node, bit, path, key_of, depth_of, own_hash, hash_at}
use strk20_indexer.Feed.Trie.Holds.{Holds, at_leaf, fork, skip, Holds-depth}

pub bit-key_bit : (key d : ℕ) → bit key d ≡ key_bit key d
unfolding bit key_bit
bit-key_bit key d = refl

path-bits_to_felt : (key d n : ℕ) → path key d n ≡ bits_to_felt (key_bits_from key d n)
unfolding path bits_to_felt key_bits_from
path-bits_to_felt key d zero = refl
path-bits_to_felt key d (suc n) =
    rw (bit-key_bit key d, path-bits_to_felt key (suc d) n, length-key_bits_from key (suc d) n) refl

-- the node as the reference sees it from depth `s`
abbrev pub seen_from : Node → ℕ → SubNode
seen_from t s = record { path = key_bits_from (key_of t) s (depth_of t - s); bottom = own_hash t }

module _ (c : Crypto) where
  resolve_path :
      (k v d n : ℕ)
      → resolve c (record { path = key_bits_from k d (suc n); bottom = v })
        ≡ edge_hash c v (path k d (suc n)) (suc n)
  unfolding resolve edge_hash key_bits_from
  resolve_path k v d n =
      rw (path-bits_to_felt k d (suc n), key_bits_from, length-key_bits_from k (suc d) n) refl

  resolve_label :
      (k v d n : ℕ)
      → resolve c (record { path = key_bits_from k d n; bottom = v })
        ≡ (if n == 0 then v else edge_hash c v (path k d n) n)
  unfolding key_bits_from resolve
  resolve_label k v d zero = refl
  resolve_label k v d (suc n) = rw (no n) (resolve_path k v d n)
    where
      no : (i : ℕ) → (suc i == 0) ≡ false
      no i = ground arith

  pub resolve-seen_from :
      (t : Node) (s : ℕ) → s ≤ depth_of t → resolve c (seen_from t s) ≡ hash_at c t s
  unfolding hash_at
  resolve-seen_from t s h =
      resolve_label (key_of t) (own_hash t) s (depth_of t - s)
      ∙ elim (Bool-cases (s == depth_of t)) [
        | inl e ↦ rw (e, same e) refl
        | inr e ↦ rw (e, other e) refl
      ]
    where
      same : (s == depth_of t) ≡ true → (depth_of t - s == 0) ≡ true
      same e = ground arith

      other : (s == depth_of t) ≡ false → (depth_of t - s == 0) ≡ false
      other e = ground (arith, h)

  pub spec_ext :
      (n : ℕ) (m m' : List Bool → Felt)
      → ((k : List Bool) → length k ≡ n → m k ≡ m' k)
      → spec c n m ≡ spec c n m'
  unfolding spec
  spec_ext zero m m' q = rw (q [] refl) refl
  spec_ext (suc n) m m' q =
      ap₂ (join c) (spec_ext n _ _ (λ k e. q (false ∷ k) (omega arith)))
        (spec_ext n _ _ (λ k e. q (true ∷ k) (omega arith)))

  join_skip :
      (n s d : ℕ) (b : Bool) (m : List Bool → Felt) (key : Key) (v : Felt)
      → bit key s ≡ b
      → s < d
      → spec c n (λ k. m (b ∷ k))
        ≡ some (record { path = key_bits_from key (suc s) (d - suc s); bottom = v })
      → ((k : List Bool) → length k ≡ n → m (not b ∷ k) ≡ 0)
      → spec c (suc n) m ≡ some (record { path = key_bits_from key s (d - s); bottom = v })
  unfolding spec join key_bits_from
  join_skip n s d b m key v x l h z =
      rw (key_bits_step)
        (skipped b x h (spec_ext n (λ k. m (not b ∷ k)) (λ k. 0) z ∙ spec-zero c n))
    where
      key_bits_step :
          key_bits_from key s (d - s) ≡ bit key s ∷ key_bits_from key (suc s) (d - suc s)
      key_bits_step =
          ap (key_bits_from key s) {x = d - s} {y = suc (d - suc s)} (omega arith)
          ∙ rw (bit-key_bit key s) refl

      skipped :
          (b : Bool)
          → bit key s ≡ b
          → spec c n (λ k. m (b ∷ k))
            ≡ some (record { path = key_bits_from key (suc s) (d - suc s); bottom = v })
          → spec c n (λ k. m (not b ∷ k)) ≡ none
          → join c (spec c n (λ k. m (false ∷ k))) (spec c n (λ k. m (true ∷ k)))
            ≡ some (record { path = bit key s ∷ key_bits_from key (suc s) (d - suc s); bottom = v })
      skipped true e p q = rw (p, q, e) refl
      skipped false e p q = rw (p, q, e) refl

  no_path : (key d s : ℕ) → d ≡ s → key_bits_from key s (d - s) ≡ []
  unfolding key_bits_from
  no_path key d s e = ap (key_bits_from key s) {x = d - s} {y = 0} (omega arith)

  -- A node that holds a map is the top of the reference trie of the map.
  pub Holds-spec :
      {n s : ℕ} {t : Node} {m : List Bool → Felt}
      → Holds c n s t m
      → n + s ≡ 251
      → spec c n m ≡ some (seen_from t s)
  unfolding spec join binary_hash
  Holds-spec {s = s} {m = m} (at_leaf {key = key} {v = v} nz e) q =
      rw (e, ne→==_false v 0 nz, no_path key 251 s (omega arith)) refl
  Holds-spec {m = m} (fork {n = n} {s = s} {l = l} {r = r} h x y a hl hr) q =
      let dl = Holds-depth c hl (omega arith) in
      let dr = Holds-depth c hr (omega arith) in
      rw
        (
          Holds-spec hl (omega arith),
          Holds-spec hr (omega arith),
          no_path (key_of l) s s refl,
          resolve-seen_from l (suc s) dl.0,
          resolve-seen_from r (suc s) dr.0,
          h,
        )
        refl
  Holds-spec {m = m} (skip {n = n} {s = s} {t = t} b x ht z) q =
      let d = Holds-depth c ht (omega arith) in
      join_skip n s (depth_of t) b m (key_of t) (own_hash t) x (omega (arith, d.0))
        (Holds-spec ht (omega arith)) z

  pub hash_at-root_of :
      {n s : ℕ} {t : Node} {m : List Bool → Felt}
      → Holds c n s t m
      → n + s ≡ 251
      → hash_at c t s ≡ root_of c n m
  unfolding root_of hash_of
  hash_at-root_of {s = s} {t = t} h q =
      rw (Holds-spec h q) (sym (resolve-seen_from t s (Holds-depth c h q).0))
