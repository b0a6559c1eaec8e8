-- ===== src/Feed/Trie/Total.antt =====
-- When an update of the cached tree succeeds.
use strk20_indexer.Prelude.{
  ◌≡◌, ◌≢◌, refl, ◌∙◌, true, inl, inr, none, some, List, [], ◌∷◌, All, arith, ltb, ◌==◌, Bool-cases,
}
use strk20_indexer.Map.{get, insert}
use strk20_indexer.Map.Laws.{ltb-IsOrder, get-insert_ne}
use strk20_indexer.Feed.Error.{ok}
use strk20_indexer.Feed.Trie.Collected.{AreWords}
use strk20_indexer.Feed.Trie.Refines.{Reached, Reached-IsCached, renewed_lem}
use strk20_indexer.Feed.Felt.{Felt, Crypto}
use strk20_indexer.Feed.Mpt.{is_trie_key, storage_root}
use strk20_indexer.Feed.Trie.{CachedTrie, collect_slots, trie_root, update_trie}
use strk20_indexer.Feed.Trie.Slots.{Slot}

-- two entries that are not zero have two keys
abbrev pub IsDistinct : List (Felt × Felt) → Type 0
IsDistinct [] = Unit
IsDistinct (e ∷ r) = All (λ f. e.1 ≢ 0 → f.1 ≢ 0 → f.0 ≢ e.0) r × IsDistinct r

abbrev Absent : List Slot → List (Felt × Felt) → Type 0
Absent next es = All (λ e. e.1 ≢ 0 → get ltb e.0 next ≡ none) es

Absent-insert :
    (e : Felt × Felt) (r : List (Felt × Felt)) (next : List Slot)
    → e.1 ≢ 0
    → All (λ f. e.1 ≢ 0 → f.1 ≢ 0 → f.0 ≢ e.0) r
    → Absent next r
    → Absent (insert ltb e.0 e.1 next) r
Absent-insert e [] next z d a = tt
Absent-insert e (f ∷ r) next z d a = (
  λ y. get-insert_ne ltb ltb-IsOrder f.0 e.0 e.1 next (d.0 z y) ∙ a.0 y,
  Absent-insert e r next z d.1 a.1,
)

collect_slots_total :
    (es : List (Felt × Felt)) (next : List Slot)
    → All (λ e. is_trie_key e.0 ≡ true) es
    → IsDistinct es
    → Absent next es
    → (done : List Slot) × (collect_slots es next ≡ ok done)
unfolding collect_slots
collect_slots_total [] next k d a = (next, refl)
collect_slots_total (e ∷ r) next k d a = elim (Bool-cases (e.1 == 0)) [
  | inl z ↦ rw (k.0, z) (collect_slots_total r next k.1 d.1 a.1)
  | inr z ↦
      let nz : e.1 ≢ 0 = ground arith in
      rw (k.0, z, a.0 nz)
        (collect_slots_total r (insert ltb e.0 e.1 next) k.1 d.1
          (Absent-insert e r next nz d.0 a.1))
]

module _ (c : Crypto) where
  -- After any sequence of updates from the empty tree, an update with trie keys that are 256-bit
  -- numbers, no two of them the same on entries that are not zero, neither fails nor panics: it answers
  -- with the root that a full recomputation gives, and leaves a tree with that root.
  pub update_trie_total :
      (t : CachedTrie) (entries : List (Felt × Felt))
      → Reached c t
      → AreWords entries
      → All (λ e. is_trie_key e.0 ≡ true) entries
      → IsDistinct entries
      → (u : CachedTrie) × (update_trie c t entries ≡ some (ok (u, storage_root c entries)))
        × (trie_root c u ≡ storage_root c entries)
  unfolding get
  update_trie_total t entries r w k d =
      let (next, q) = collect_slots_total entries [] k d (nothing entries) in
      let (u, y, z, _) = renewed_lem c t entries next (Reached-IsCached c r) w q in (u, y, z)
    where
      nothing : (es : List (Felt × Felt)) → Absent [] es
      nothing [] = tt
      nothing (e ∷ r) = (λ z. refl, nothing r)
