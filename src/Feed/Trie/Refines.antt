-- ===== src/Feed/Trie/Refines.antt =====
-- An update of the cached tree gives the root that a full recomputation gives.
use native.Mathlib.Nat.{div-eq_of_lt}
use strk20_indexer.Prelude.{
  ◌≡◌, refl, sym, ◌∙◌, ap, subst, ◌⊎◌, inl, inr, Option, none, some, List, [], ◌∷◌, arith, ltb,
  Option-cases,
}
use strk20_indexer.Map.{get}
use strk20_indexer.Map.Laws.{Sorted}
use strk20_indexer.Feed.Error.{FeedError, Result, ok, err}
use strk20_indexer.Feed.Felt.{Felt, Crypto}
use strk20_indexer.Feed.Mpt.{hash_of, storage_root, bits_to_felt}
use strk20_indexer.Feed.Mpt.Spec.{root_of}
use strk20_indexer.Feed.Mpt.Root.{storage_root-eq-root_of, spec-zero}
use strk20_indexer.Feed.Trie.{
  Key, Node, CachedTrie, hash_at, no_trie, collect_slots, build_root, write_changed, drop_missing,
  renew, renewed, trie_root, update_trie,
}
use strk20_indexer.Feed.Trie.Holds.{Holds-ext}
use strk20_indexer.Feed.Trie.Commit.{spec_ext, hash_at-root_of}
use strk20_indexer.Feed.Trie.Parts.{All-map}
use strk20_indexer.Feed.Trie.Build.{Entries, build-Built}
use strk20_indexer.Feed.Trie.Slots.{Slot, value_of, Stored, path-lt}
use strk20_indexer.Feed.Trie.Loops.{IsSlots, loops-Stored}
use strk20_indexer.Feed.Trie.Collected.{
  AreWords, first_of-value_at, collect_slots-Kept, held-value_of,
}

module _ (c : Crypto) where
  -- what an update relies on and keeps
  pub record IsCached (t : CachedTrie) : Type 0 where
    pub stored : Stored c t.root (value_of t.values)
    pub are_slots : IsSlots t.values
    pub ascending : Sorted ltb t.values

  no_trie-IsCached : IsCached no_trie
  unfolding get
  no_trie-IsCached = record { stored = λ k l. refl; are_slots = tt; ascending = tt }

  -- The root of a tree is the commitment of the map that it holds.
  Stored-root :
      (t : CachedTrie) (g : Key → Felt)
      → Stored c t.root g
      → trie_root c t ≡ root_of c 251 (λ j. g (bits_to_felt j))
  unfolding trie_root root_of hash_of
  Stored-root t g h = root (t.root) h
    where
      root :
          (o : Option Node)
          → Stored c o g
          → (elim o [ none ↦ 0 | some n ↦ hash_at c n 0 ]) ≡ root_of c 251 (λ j. g (bits_to_felt j))
      root none h = sym (
          rw
            (
              spec_ext c 251 (λ j. g (bits_to_felt j)) (λ j. 0)
                  (λ j l. h (bits_to_felt j) (path-lt j l)),
              spec-zero c 251,
            )
            refl)
      root (some n) h = hash_at-root_of c h (omega arith)

  -- what is there to renew is renewed, without a panic
  abbrev IsRenewed : Option (Option Node) → List Slot → Type 0
  IsRenewed x next = (root : Option Node) × (x ≡ some root) × Stored c root (value_of next)

  build_root-IsRenewed :
      (next : List Slot) → Sorted ltb next → IsSlots next → IsRenewed (build_root c next) next
  unfolding build_root get
  build_root-IsRenewed [] s i = (none, refl, λ k l. refl)
  build_root-IsRenewed (e ∷ r) s i =
      let entries : Entries c 251 0 (e ∷ r) = (
        omega arith,
        s,
        All-map (λ x h. h.1) (e ∷ r) i,
        All-map (λ x h. div-eq_of_lt h.0) (e ∷ r) i,
      ) in
      let b = build-Built c 251 0 251 0 (e ∷ r) (omega arith) (omega arith) entries in
      (
        some b.node,
        rw (build_root, b.is_node) refl,
        Holds-ext c _ b.holds (λ j l. held-value_of (e ∷ r) j l i),
      )

  renew-IsRenewed :
      (t : CachedTrie) (next : List Slot)
      → IsCached t
      → Sorted ltb next
      → IsSlots next
      → IsRenewed (renew c t next) next
  unfolding renew
  renew-IsRenewed t next h s i = elim (Option-cases t.root) [
    | inl q ↦ rw (renew, q) (build_root-IsRenewed next s i)
    | inr (n, q) ↦ (
      drop_missing c next t.values (write_changed c t.values next (some n)),
      rw (renew, q) refl,
      loops-Stored c next t.values (some n) s i h.are_slots (rw q at h.stored),
    )
  ]

  -- what an update has made of the slots
  pub renewed_lem :
      (t : CachedTrie) (entries : List (Felt × Felt)) (next : List Slot)
      → IsCached t
      → AreWords entries
      → collect_slots entries [] ≡ ok next
      → (u : CachedTrie) × (update_trie c t entries ≡ some (ok (u, storage_root c entries)))
        × (trie_root c u ≡ storage_root c entries)
        × IsCached u
  unfolding update_trie root_of get
  renewed_lem t entries next h w q =
      let k = collect_slots-Kept entries [] next w tt tt q in
      let (root, r, b) = renew-IsRenewed t next h k.0 k.1 in
      let value : trie_root c (renewed c next root) ≡ storage_root c entries =
        Stored-root (renewed c next root) (value_of next) b
        ∙ ap (hash_of c) (
            spec_ext c 251 _ _
              (λ j l. k.3 (bits_to_felt j) ∙ sym (first_of-value_at entries j k.2 l)))
        ∙ sym (storage_root-eq-root_of c entries) in
      (
        renewed c next root,
        rw (q, r) (ap (λ x. some (ok (renewed c next root, x))) value),
        value,
        record { stored = b; are_slots = k.1; ascending = k.0 },
      )

  -- the trees that updates make, from the empty one
  pub data Reached : CachedTrie → Type 0 where
    fresh : Reached no_trie
    advance :
        {t u : CachedTrie} {root : Felt} (entries : List (Felt × Felt))
        → Reached t
        → AreWords entries
        → update_trie c t entries ≡ some (ok (u, root))
        → Reached u

  answered-IsCached :
      (t u : CachedTrie) (root : Felt) (entries : List (Felt × Felt))
      → IsCached t
      → AreWords entries
      → update_trie c t entries ≡ some (ok (u, root))
      → IsCached u
  unfolding update_trie
  answered-IsCached t u root entries h w q = of (collect_slots entries []) refl
    where
      of : (x : Result (List Slot)) → collect_slots entries [] ≡ x → IsCached u
      of (err e) x = absurd (cc (rw (update_trie, x) at q))
      of (ok next) x =
          let (v, y, _, k) = renewed_lem t entries next h w x in
          let same : v ≡ u = cc in subst IsCached same k

  pub Reached-IsCached : {t : CachedTrie} → Reached t → IsCached t
  Reached-IsCached fresh = no_trie-IsCached
  Reached-IsCached (advance {t = t} {u = u} {root = root} entries r w q) =
      answered-IsCached t u root entries (Reached-IsCached r) w q

  -- After any sequence of updates from the empty tree, a further update does not panic. It reports the
  -- error with which the new slots are refused, or it answers with the root that a full recomputation
  -- over them gives, and the updated tree has that root. Keys are 256-bit numbers.
  pub update_trie-storage_root :
      (t : CachedTrie) (entries : List (Felt × Felt))
      → Reached t
      → AreWords entries
      → ((e : FeedError) × (collect_slots entries [] ≡ err e)
          × (update_trie c t entries ≡ some (err e)))
        ⊎ ((u : CachedTrie) × (update_trie c t entries ≡ some (ok (u, storage_root c entries)))
            × (trie_root c u ≡ storage_root c entries))
  unfolding update_trie
  update_trie-storage_root t entries r w = of (collect_slots entries []) refl
    where
      of :
          (x : Result (List Slot))
          → collect_slots entries [] ≡ x
          → ((e : FeedError) × (collect_slots entries [] ≡ err e)
              × (update_trie c t entries ≡ some (err e)))
            ⊎ ((u : CachedTrie) × (update_trie c t entries ≡ some (ok (u, storage_root c entries)))
                × (trie_root c u ≡ storage_root c entries))
      of (err e) x = inl (e, x, rw (update_trie, x) refl)
      of (ok next) x =
          let (u, y, z, _) = renewed_lem t entries next (Reached-IsCached r) w x in inr (u, y, z)
