-- ===== src/Examples/Providing.antt =====
-- Crates with the identity for preimages and a committer that changes no root.
use snip36_prover_web.Common.{◌≡◌, refl, some, [], ◌∷◌, map, true, false, ok, arith, nat_eq}
use snip36_prover_web.Common.Assoc.{Assoc, insert}
use snip36_prover_web.Proofs.Types.{Felt, ContractAddress, MerkleNode}
use snip36_prover_web.Committer.Types.{StateMaps, empty_maps}
use snip36_prover_web.Committer.Diff.{state_maps_to_committer_state_diff, IsVirtual}
use snip36_prover_web.Provider.Commitments.{
  Crates, CommitmentInfo, StateRoots, StorageProofs, get_storage_proofs,
}
use snip36_prover_web.Proofs.Fetch.{fetch_proofs, fetch_single_proof}
use snip36_prover_web.Proofs.Query.{count_total_keys}
use snip36_prover_web.Provider.Prepare.{prepare_query, group_keys, insert_sorted, sort}
use snip36_prover_web.Common.Assoc.{lookup, extend}
use snip36_prover_web.Proofs.Node.{respond, gather, gather_from}
use snip36_prover_web.Provider.Commitments.{
  create_commitment_infos_with_state_changes, read_leaves, commit_state_diff,
}
use snip36_prover_web.Committer.Facts.{
  create_facts_db_from_storage_proof, insert_inner_nodes, for_each, insert_contract_leaves,
  insert_storage_entries, insert_class_entries, add_dummies_from, add_dummies_of_node,
  add_dummy_node_for_orphan_child, add_dummy_nodes_for_orphan_hashes, insert_leaf_node,
  insert_leaves,
}
use snip36_prover_web.Committer.Diff.{
  validate_storage, validate_updates, validate_virtual_os_state_diff,
}
use snip36_prover_web.Provider.Honest.{Reports, get_storage_proofs_total}
use snip36_prover_web.Provider.Changes.{get_storage_proofs-IsVirtual}
use snip36_prover_web.Examples.Fetching.{one_node, honest, honest-Answers, reads, addresses_of}
use snip36_prover_web.Examples.Committing.{plain}

abbrev diff_of : Assoc (ContractAddress × Felt) Felt → Assoc ContractAddress (Assoc Felt Felt)
diff_of [] = []
diff_of (((a, k), v) ∷ rest) = (a, ((k, v) ∷ [])) ∷ diff_of rest

abbrev bare : Felt → Felt → CommitmentInfo
bare old new = record {
  previous_root = old;
  updated_root = new;
  tree_height = 251;
  commitment_facts = [];
}

abbrev simple_crates : Crates
simple_crates = record {
  codec = plain;
  Preimage = MerkleNode;
  preimage_from = λ n. n;
  flatten_preimages = map (λ p. (p.0, []));
  actual_height = 251;
  try_address = some;
  get_contract_addresses = addresses_of;
  storage_diff_from = diff_of;
  Forest = StateRoots;
  commit_block = λ db roots d. ok roots;
  write = λ forest db. ok db;
  contract_root = λ forest. forest.contracts_trie_root_hash;
  class_root = λ forest. forest.classes_trie_root_hash;
  create_commitment_infos = λ old new db maps. ok (record {
    contracts_trie_commitment_info = bare old.contracts_trie_root_hash new.contracts_trie_root_hash;
    classes_trie_commitment_info = bare old.classes_trie_root_hash new.classes_trie_root_hash;
    storage_tries_commitment_infos = [];
  });
}

get_storage_proofs_total_example :
    (out : StorageProofs) × (get_storage_proofs simple_crates honest 12 reads empty_maps
        (record { include_state_changes = false })
      ≡ ok out)
    × Reports simple_crates honest one_node 12 reads out
unfolding prepare_query
get_storage_proofs_total_example =
    get_storage_proofs_total simple_crates honest one_node 12 reads empty_maps
      (record { include_state_changes = false }) honest-Answers (ground arith) (refl, (refl, tt))
      refl

abbrev one_write : StateMaps
one_write = record empty_maps { storage = ((7, 2), 4) ∷ []; nonces = (7, 1) ∷ [] }

get_storage_proofs-IsVirtual_example :
    IsVirtual (state_maps_to_committer_state_diff diff_of one_write)
unfolding state_maps_to_committer_state_diff fetch_proofs fetch_single_proof count_total_keys
    prepare_query group_keys insert_sorted sort lookup insert extend respond gather gather_from
    create_commitment_infos_with_state_changes read_leaves commit_state_diff get_storage_proofs
    create_facts_db_from_storage_proof insert_inner_nodes for_each insert_contract_leaves
    insert_storage_entries insert_class_entries add_dummies_from add_dummies_of_node
    add_dummy_node_for_orphan_child add_dummy_nodes_for_orphan_hashes insert_leaf_node insert_leaves
    validate_storage validate_updates validate_virtual_os_state_diff
get_storage_proofs-IsVirtual_example =
    get_storage_proofs-IsVirtual simple_crates honest 12 reads one_write
      (record { include_state_changes = true }) _ refl refl
