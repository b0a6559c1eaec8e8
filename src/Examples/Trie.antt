-- ===== src/Examples/Trie.antt =====
-- Two slots that share all but four bits of their keys.
use strk20_indexer.Prelude.{◌≡◌, ◌⊎◌, refl, List, [], ◌∷◌, some}
use strk20_indexer.Feed.Error.{Result, ok}
use strk20_indexer.Feed.Felt.{Felt, bit_at, felt_from_hex}
use strk20_indexer.Feed.Mpt.{
  tree_height, key_bits, storage_root, subtree_hash_at, hash_of, subtree, entries_with_prefix,
  bit_entries, dedup_bits, sort_bits, insert_sorted, bits_lt, key_bits_from, key_bit, dedup_from,
  bits_eq, join, resolve, bits_to_felt, is_trie_key, fits_in_bits, all_clear, binary_hash,
  edge_hash,
}
use strk20_indexer.Feed.Mpt.Spec.{root_of}
use strk20_indexer.Feed.Mpt.Sorted.{value_at}
use strk20_indexer.Feed.Mpt.Nodes.{Break}
use strk20_indexer.Feed.Mpt.Root.{storage_root-eq-root_of}
use strk20_indexer.Feed.Proof.{
  ProofNode, ProofOutcome, binary, edge, member, verify_storage_proof, index_nodes, get_node, walk,
  round, visit, diverges,
}
use strk20_indexer.Feed.Proof.Sound.{verify_storage_proof-storage_root}
use strk20_indexer.Feed.Proof.Total.{verify_storage_proof_total}
use strk20_indexer.Examples.World.{crypto}

abbrev slots : List (Felt × Felt)
slots = (9, 4) ∷ (5, 7) ∷ (2, 0) ∷ []

abbrev proof_of_5 : List ProofNode
proof_of_5 =
    record { node_hash = "0x1d8"; node = edge "0x0" 247 "0x70" }
    ∷ record { node_hash = "0x70"; node = binary "0x21" "0xf" }
    ∷ record { node_hash = "0x21"; node = edge "0x5" 3 "0x7" }
    ∷ []

root : storage_root crypto slots ≡ 472
unfolding storage_root subtree_hash_at hash_of subtree entries_with_prefix bit_entries dedup_bits
    sort_bits insert_sorted bits_lt key_bits key_bits_from key_bit bit_at dedup_from bits_eq join
    resolve bits_to_felt
root = refl

storage_root-eq-root_of_example :
    storage_root crypto slots ≡ root_of crypto tree_height (value_at slots)
storage_root-eq-root_of_example = storage_root-eq-root_of crypto slots

walked : verify_storage_proof crypto 472 proof_of_5 5 ≡ some (ok (member 7))
unfolding verify_storage_proof is_trie_key fits_in_bits all_clear bit_at index_nodes felt_from_hex
    get_node walk round visit diverges key_bit binary_hash edge_hash
walked = refl

accepted :
    verify_storage_proof crypto (storage_root crypto slots) proof_of_5 5 ≡ some (ok (member 7))
accepted = rw root walked

verify_storage_proof-storage_root_example : (value_at slots (key_bits 5) ≡ 7) ⊎ Break crypto
verify_storage_proof-storage_root_example =
    verify_storage_proof-storage_root crypto slots proof_of_5 5 (member 7) accepted

verify_storage_proof_total_example :
    (r : Result ProofOutcome) × (verify_storage_proof crypto 472 proof_of_5 5 ≡ some r)
verify_storage_proof_total_example = verify_storage_proof_total crypto 472 proof_of_5 5
