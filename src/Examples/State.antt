-- ===== src/Examples/State.antt =====
-- A mirror whose slots have the root 472, against the pool of `Trusted`.
use strk20_indexer.Prelude.{◌≡◌, ◌⊎◌, refl, sym, ◌∙◌, ap, length, some, List, [], ◌∷◌, String}
use strk20_indexer.Feed.Felt.{Felt, bit_at, felt_from_hex}
use strk20_indexer.Feed.Mpt.{
  tree_height, key_bits, storage_root, subtree_hash_at, hash_of, subtree, entries_with_prefix,
  bit_entries, dedup_bits, sort_bits, insert_sorted, bits_lt, key_bits_from, key_bit, dedup_from,
  bits_eq, join, resolve, bits_to_felt,
}
use strk20_indexer.Feed.Mpt.Spec.{root_of}
use strk20_indexer.Feed.Mpt.Sorted.{value_at}
use strk20_indexer.Feed.Mpt.Root.{storage_root-eq-root_of}
use strk20_indexer.Feed.Mpt.Nodes.{Break}
use strk20_indexer.Feed.Mpt.Binds.{storage_root_binds}
use strk20_indexer.Feed.Checkpoint.{TrustedCheckpoint, contract_leaf_hash}
use strk20_indexer.Feed.Checkpoint.Bound.{PedersenCollision, PoseidonCollision}
use strk20_indexer.Consumer.Reply.{Failure, done, failed}
use strk20_indexer.Consumer.Number.{parse_u64}
use strk20_indexer.Map.{meta_get, meta_insert, last}
use strk20_indexer.Consumer.Mem.{Inner, number_or_zero, read_slot_as_of, slots}
use strk20_indexer.Consumer.Mem.View.{full_slot_set_as_of}
use strk20_indexer.Consumer.State.{storage_root_at, state_checks, set_meta, verify_state}
use strk20_indexer.Consumer.State.Grounded.{
  IsChecked, verify_state_lem, verify_state-verify_checkpoint,
}
use strk20_indexer.Examples.World.{crypto, json_of}
use strk20_indexer.Examples.Trusted.{
  trusted, docs, from_value, contracts, committed, leaf, returned,
}

abbrev pub mirror : Inner
mirror = record {
  meta = ("pool", "0x5") ∷ ("chain_id", "SN_MAIN") ∷ ("head_number", "12") ∷ [];
  blocks = [];
  storage = ((5, 3), 7) ∷ ((9, 4), 1) ∷ ((9, 12), 4) ∷ ((9, 13), 2) ∷ [];
  storage_max_block = 13;
  events = [];
  notes = [];
}

abbrev pub pool_slots : List (Felt × Felt)
pool_slots = (5, 7) ∷ (9, 4) ∷ []

pub pool_root : storage_root crypto pool_slots ≡ 472
unfolding storage_root subtree_hash_at hash_of subtree entries_with_prefix bit_entries dedup_bits
    sort_bits insert_sorted bits_lt key_bits key_bits_from key_bit bit_at dedup_from bits_eq join
    resolve bits_to_felt
pool_root = refl

folded : full_slot_set_as_of 12 (set_meta "verification_failed" "1" mirror) ≡ pool_slots
unfolding full_slot_set_as_of slots read_slot_as_of last set_meta
folded = refl

abbrev pub name_of_checkpoint : TrustedCheckpoint → String
name_of_checkpoint cp = cp.chain_id

checked : state_checks crypto trusted 472 (set_meta "verification_failed" "1" mirror) ≡ done tt
unfolding state_checks storage_root_at number_or_zero meta_get set_meta meta_insert parse_u64
    felt_from_hex
checked = rw (folded, pool_root) refl

matched : (verify_state name_of_checkpoint crypto trusted 472 mirror).0 ≡ done tt
unfolding verify_state
matched = rw (verify_state, checked) refl

verify_state_lem_example :
    (((verify_state name_of_checkpoint crypto trusted 472 mirror).0 ≡ done tt)
      × (meta_get "verification_failed"
            (verify_state name_of_checkpoint crypto trusted 472 mirror).1.meta
          ≡ some "0")
      × IsChecked crypto trusted 472 mirror)
    ⊎ ((e : Failure) × ((verify_state name_of_checkpoint crypto trusted 472 mirror).0 ≡ failed e)
        × (meta_get "verification_failed"
              (verify_state name_of_checkpoint crypto trusted 472 mirror).1.meta
            ≡ some "1"))
verify_state_lem_example = verify_state_lem name_of_checkpoint crypto trusted 472 mirror

pool_leaf :
    value_at contracts (key_bits trusted.pool)
    ≡ contract_leaf_hash crypto 1 (root_of crypto tree_height (value_at pool_slots)) 0
pool_leaf =
    leaf
    ∙ ap (λ (r : Felt). contract_leaf_hash crypto 1 r 0)
        (sym pool_root ∙ storage_root-eq-root_of crypto pool_slots)

whole : length (key_bits 9) ≡ tree_height
unfolding key_bits key_bits_from
whole = refl

whole_5 : length (key_bits 5) ≡ tree_height
unfolding key_bits key_bits_from
whole_5 = refl

reordered : storage_root crypto pool_slots ≡ storage_root crypto ((9, 4) ∷ (5, 7) ∷ [])
unfolding storage_root subtree_hash_at hash_of subtree entries_with_prefix bit_entries dedup_bits
    sort_bits insert_sorted bits_lt key_bits key_bits_from key_bit bit_at dedup_from bits_eq join
    resolve bits_to_felt
reordered = pool_root ∙ refl

verify_state-verify_checkpoint_example :
    (value_at (full_slot_set_as_of 12 mirror) (key_bits 9) ≡ value_at pool_slots (key_bits 9))
    ⊎ (PedersenCollision crypto ⊎ (Break crypto ⊎ PoseidonCollision crypto))
verify_state-verify_checkpoint_example =
    verify_state-verify_checkpoint name_of_checkpoint crypto (json_of docs) from_value trusted
      (0 ∷ []) (value_at contracts) (value_at pool_slots) 9 1 0 472 mirror (key_bits 9) committed
      pool_leaf returned matched whole

storage_root_binds_example :
    (value_at pool_slots (key_bits 5) ≡ value_at ((9, 4) ∷ (5, 7) ∷ []) (key_bits 5)) ⊎ Break crypto
storage_root_binds_example =
    storage_root_binds crypto pool_slots ((9, 4) ∷ (5, 7) ∷ []) (key_bits 5) reordered whole_5
