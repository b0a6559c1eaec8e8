-- ===== src/Examples/Cached.antt =====
-- The cached tree over two updates: three slots, then slots of which one is changed, one gone and one new.
use strk20_indexer.Prelude.{◌≡◌, ◌⊎◌, refl, List, [], ◌∷◌, some, All, true, arith}
use strk20_indexer.Feed.Error.{FeedError, ok, err}
use strk20_indexer.Feed.Felt.{Felt, bit_at, byte}
use strk20_indexer.Feed.Mpt.{
  storage_root, is_trie_key, fits_in_bits, all_clear, binary_hash, edge_hash,
}
use strk20_indexer.Map.{get, insert, last}
use strk20_indexer.Feed.Trie.{
  CachedTrie, no_trie, leaf, branch, bit, path, first_difference, collect_slots, hash_at, branch_at,
  build, build_root, part, update, trie_root, set_slot, write_changed, clear_slot, drop_missing,
  renew, update_trie,
}
use strk20_indexer.Feed.Trie.Refines.{Reached, fresh, advance, update_trie-storage_root}
use strk20_indexer.Feed.Trie.Total.{IsDistinct, update_trie_total}
use strk20_indexer.Examples.World.{crypto}

abbrev before : List (Felt × Felt)
before = (9, 4) ∷ (5, 7) ∷ (2, 0) ∷ (4, 3) ∷ []

abbrev after : List (Felt × Felt)
after = (4, 3) ∷ (9, 6) ∷ (300, 1) ∷ []

abbrev one_tree : CachedTrie
one_tree = record {
  root = some (branch 4 247 176 (branch 4 250 28 (leaf 4 3) (leaf 5 7)) (leaf 9 4));
  values = (4, 3) ∷ (5, 7) ∷ (9, 4) ∷ [];
}

first_update : update_trie crypto no_trie before ≡ some (ok (one_tree, 600))
unfolding update_trie collect_slots get insert is_trie_key fits_in_bits all_clear bit_at byte build
    build_root renew last first_difference bit branch_at hash_at path binary_hash edge_hash
    trie_root set_slot write_changed clear_slot drop_missing update part
first_update = refl

reached : Reached crypto one_tree
reached =
    advance before fresh (omega arith, (omega arith, (omega arith, (omega arith, tt)))) first_update

update_trie-storage_root_example :
    ((e : FeedError) × (collect_slots after [] ≡ err e)
      × (update_trie crypto one_tree after ≡ some (err e)))
    ⊎ ((u : CachedTrie) × (update_trie crypto one_tree after
          ≡ some (ok (u, storage_root crypto after)))
        × (trie_root crypto u ≡ storage_root crypto after))
update_trie-storage_root_example =
    update_trie-storage_root crypto one_tree after reached
      (omega arith, (omega arith, (omega arith, tt)))

are_keys : All (λ e. is_trie_key e.0 ≡ true) after
unfolding is_trie_key fits_in_bits all_clear bit_at byte
are_keys = (refl, (refl, (refl, tt)))

after-IsDistinct : IsDistinct after
after-IsDistinct =
    ((λ a b. ground arith, (λ a b. ground arith, tt)), ((λ a b. ground arith, tt), (tt, tt)))

update_trie_total_example :
    (u : CachedTrie) × (update_trie crypto one_tree after
      ≡ some (ok (u, storage_root crypto after)))
    × (trie_root crypto u ≡ storage_root crypto after)
update_trie_total_example =
    update_trie_total crypto one_tree after reached (omega arith, (omega arith, (omega arith, tt)))
      are_keys after-IsDistinct
