-- ===== src/Examples/Trusted.antt =====
-- A pool with the storage root 472 in a contracts trie of one contract.
use strk20_indexer.Prelude.{◌≡◌, ◌⊎◌, refl, sym, ◌∙◌, ap, List, [], ◌∷◌, some, none, Option}
use strk20_indexer.Feed.Error.{ok}
use strk20_indexer.Feed.Felt.{Felt, bit_at, felt_from_hex}
use strk20_indexer.Feed.Mpt.{
  tree_height, key_bits, storage_root, subtree_hash_at, hash_of, subtree, entries_with_prefix,
  bit_entries, dedup_bits, sort_bits, insert_sorted, bits_lt, key_bits_from, key_bit, dedup_from,
  bits_eq, join, resolve, bits_to_felt, is_trie_key, fits_in_bits, all_clear, binary_hash,
  edge_hash,
}
use strk20_indexer.Feed.Mpt.Spec.{root_of}
use strk20_indexer.Feed.Mpt.Sorted.{value_at}
use strk20_indexer.Feed.Mpt.Nodes.{Break}
use strk20_indexer.Feed.Mpt.Root.{storage_root-eq-root_of}
use strk20_indexer.Feed.Proof.{
  edge, index_nodes, get_node, walk, round, visit, diverges, verify_storage_proof,
}
use strk20_indexer.Feed.Checkpoint.{
  TrustedCheckpoint, ProofResult, state_commitment_tag, state_commitment, contract_leaf_hash,
  unwrap_envelope, node_count, proof_felt, check_address, only_leaf, check_trusted, check_proof,
  check_leaf, read_proof, verify_checkpoint,
}
use strk20_indexer.Feed.Checkpoint.Bound.{
  PedersenCollision, PoseidonCollision, verify_checkpoint_sound,
}
use strk20_indexer.Examples.World.{crypto, json_of, Doc, object, array, nil, end, field, null}

abbrev pub contracts : List (Felt × Felt)
contracts = (5, 5679) ∷ []

abbrev pub trusted : TrustedCheckpoint
trusted = record {
  chain_id = "SN_MAIN";
  pool = 5;
  block_number = 12;
  block_hash = 7;
  state_root = state_commitment crypto 11625 9;
}

abbrev pub honest : ProofResult
honest = record {
  contracts_proof = record {
    nodes = record { node_hash = "0x2d69"; node = edge "0x5" 251 "0x162f" } ∷ [];
    contract_leaves_data =
        record {
          class_hash = "0x1";
          nonce = "0x0";
          storage_root = "0x1d8";
          contract_address = none;
          address = some "0x5";
        }
        ∷ [];
  };
  global_roots = record {
    block_hash = "0x7";
    classes_tree_root = "0x9";
    contracts_tree_root = "0x2d69";
  };
}

abbrev pub docs : List Doc
docs =
    object (
      field "result" (object (field "contracts_proof" (object (field "nodes" (array nil) end)) end))
        (field "error" null end))
    ∷ []

abbrev pub from_value : Doc → Option ProofResult
from_value (object fs) = some honest
from_value _ = none

contracts_root : storage_root crypto contracts ≡ 11625
unfolding storage_root subtree_hash_at hash_of subtree entries_with_prefix bit_entries dedup_bits
    sort_bits insert_sorted bits_lt key_bits key_bits_from key_bit bit_at dedup_from bits_eq join
    resolve bits_to_felt
contracts_root = refl

pub committed :
    trusted.state_root ≡ state_commitment crypto (root_of crypto tree_height (value_at contracts)) 9
committed =
    ap (λ (r : Felt). state_commitment crypto r 9)
      (sym contracts_root ∙ storage_root-eq-root_of crypto contracts)

pub leaf : value_at contracts (key_bits trusted.pool) ≡ contract_leaf_hash crypto 1 472 0
unfolding contract_leaf_hash value_at key_bits key_bits_from key_bit bit_at bits_eq
leaf = refl

pub returned : verify_checkpoint crypto (json_of docs) from_value trusted (0 ∷ []) ≡ some (ok 472)
unfolding verify_checkpoint check_trusted read_proof check_proof check_leaf unwrap_envelope
    node_count only_leaf proof_felt state_commitment state_commitment_tag check_address
    contract_leaf_hash verify_storage_proof is_trie_key fits_in_bits all_clear bit_at index_nodes
    felt_from_hex get_node walk round visit diverges key_bit binary_hash edge_hash
returned = refl

verify_checkpoint_sound_example :
    (◌≡◌ {A = Felt} 472 472)
    ⊎ (PedersenCollision crypto ⊎ (Break crypto ⊎ PoseidonCollision crypto))
verify_checkpoint_sound_example =
    verify_checkpoint_sound crypto (json_of docs) from_value trusted (0 ∷ []) (value_at contracts) 9
      1 472 0 472 committed leaf returned
