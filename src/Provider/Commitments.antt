-- ===== src/Provider/Commitments.antt =====
-- storage_proofs.rs: the commitment infos, with and without state changes, and
-- `get_storage_proofs`; committer_utils.rs: `commit_state_diff`.
use snip36_prover_web.Common.{
  ℕ, Option, List, [], ◌∷◌, map, zip, length, nat_beq, not, nat_eq, pair_eq, Result, ok, ◌>>=◌,
  ◌>>◌, map_err, traverse, ok_or, reject_if, if◌then◌else◌,
}
use snip36_prover_web.Common.Assoc.{Assoc, lookup, insert, extend}
use snip36_prover_web.Proofs.Types.{
  Felt, ContractAddress, ContractStorageKeys, RpcStorageProofsQuery, MerkleNode, Nodes,
  ContractLeafData, RpcStorageProof, StorageProofConfig, ProofProviderError, serialization_error,
  block_commitment_error, invalid_proof_response, leaves_length, storage_proofs_length, bad_address,
  missing_leaf,
}
use snip36_prover_web.Proofs.Fetch.{GetStorageProof, fetch_proofs}
use snip36_prover_web.Committer.Types.{StateMaps, empty_maps, StateDiff}
use snip36_prover_web.Committer.Diff.{
  state_maps_to_committer_state_diff, validate_virtual_os_state_diff,
}
use snip36_prover_web.Committer.Codec.{Codec}
use snip36_prover_web.Committer.Facts.{Db, storage_root_or_zero, create_facts_db_from_storage_proof}
use snip36_prover_web.Provider.Prepare.{ExecutionReads, prepare_query}

-- `flatten_preimages`'s result: the felts that each hash commits to.
abbrev pub CommitmentFacts : Type 0
CommitmentFacts = Assoc Felt (List Felt)

pub record CommitmentInfo : Type 0 where
  pub previous_root : Felt
  pub updated_root : Felt
  pub tree_height : ℕ
  pub commitment_facts : CommitmentFacts

pub record StateCommitmentInfos : Type 0 where
  pub contracts_trie_commitment_info : CommitmentInfo
  pub classes_trie_commitment_info : CommitmentInfo
  pub storage_tries_commitment_infos : Assoc ContractAddress CommitmentInfo

pub record StorageProofs : Type 0 where
  pub extended_initial_reads : StateMaps
  pub commitment_infos : StateCommitmentInfos

pub record StateRoots : Type 0 where
  pub contracts_trie_root_hash : Felt
  pub classes_trie_root_hash : Felt

-- What the two files call of the patricia, committer, OS and blockifier crates. Numbers stand for
-- their errors.
pub record Crates : Type 1 where
  pub codec : Codec
  pub Preimage : Type 0
  pub preimage_from : MerkleNode → Preimage
  pub flatten_preimages : Assoc Felt Preimage → CommitmentFacts
  -- `SubTreeHeight::ACTUAL_HEIGHT`
  pub actual_height : ℕ
  -- `ContractAddress::try_from(felt)`
  pub try_address : Felt → Option ContractAddress
  pub get_contract_addresses : StateMaps → List ContractAddress
  pub storage_diff_from :
      Assoc (ContractAddress × Felt) Felt → Assoc ContractAddress (Assoc Felt Felt)
  pub Forest : Type 0
  -- `CommitBlockImpl::commit_block`, on the database, the two roots and the diff
  pub commit_block : Db codec → StateRoots → StateDiff → Result ℕ Forest
  pub write : Forest → Db codec → Result ℕ (Db codec)
  pub contract_root : Forest → Felt
  pub class_root : Forest → Felt
  -- `create_commitment_infos`, on the old and new roots, the storage and the keys of the reads
  pub create_commitment_infos :
      StateRoots → StateRoots → Db codec → StateMaps → Result ℕ StateCommitmentInfos

-- The loop that files class hash and nonce of each leaf under its address.
unfoldable pub read_leaves : List (ContractLeafData × ContractAddress) → StateMaps → StateMaps
read_leaves [] m = m
read_leaves ((leaf, addr) ∷ rest) m = read_leaves rest (record m {
  class_hashes = insert addr leaf.class_hash m.class_hashes;
  nonces = insert addr leaf.nonce m.nonces;
})

-- `addr_to_leaf`
unfoldable pub collect_leaves :
    List (ContractAddress × ContractLeafData)
    → Assoc ContractAddress ContractLeafData
    → Assoc ContractAddress ContractLeafData
collect_leaves [] m = m
collect_leaves ((addr, leaf) ∷ rest) m = collect_leaves rest (insert addr leaf m)

module _ (crates : Crates) where
  open crates use {
    codec, Preimage, preimage_from, flatten_preimages, actual_height, try_address,
    get_contract_addresses, storage_diff_from, commit_block, write, contract_root, class_root,
    create_commitment_infos,
  }

  abbrev pub preimage_entry : Felt × MerkleNode → Felt × Preimage
  preimage_entry (hash, node) = (hash, preimage_from node)

  abbrev pub rpc_nodes_to_preimage_map : Nodes → Assoc Felt Preimage
  rpc_nodes_to_preimage_map nodes = extend [] (map preimage_entry nodes)

  -- The trie of a proof, with one root before and after.
  abbrev pub unchanged : Felt → Nodes → CommitmentInfo
  unchanged root nodes = record {
    previous_root = root;
    updated_root = root;
    tree_height = actual_height;
    commitment_facts = flatten_preimages (rpc_nodes_to_preimage_map nodes);
  }

  -- The closure over each contract and its proof.
  unfoldable pub storage_info :
      Assoc ContractAddress ContractLeafData
      → ContractStorageKeys × Nodes
      → Result ProofProviderError (ContractAddress × CommitmentInfo)
  storage_info addr_to_leaf (csk, proof) = do
    addr ←
        ok_or (try_address csk.contract_address)
          (invalid_proof_response (bad_address csk.contract_address))
    leaf ← ok_or (lookup addr addr_to_leaf) (invalid_proof_response (missing_leaf addr))
    ok (addr, unchanged (storage_root_or_zero codec leaf.storage_root) proof)

  unfoldable pub build_storage_commitment_infos :
      RpcStorageProof
      → RpcStorageProofsQuery
      → Result ProofProviderError (Assoc ContractAddress CommitmentInfo)
  unfolding storage_info collect_leaves
  build_storage_commitment_infos rpc_proof query = do
    reject_if
        (not (
          nat_beq (length rpc_proof.contracts_storage_proofs) (length query.contract_storage_keys)))
        (invalid_proof_response storage_proofs_length)
    let addr_to_leaf =
        collect_leaves (zip query.contract_addresses rpc_proof.contracts_proof.contract_leaves_data)
          []
    infos ←
        traverse (storage_info addr_to_leaf)
          (zip query.contract_storage_keys rpc_proof.contracts_storage_proofs)
    ok (extend [] infos)

  unfoldable pub create_commitment_infos_without_state_changes :
      RpcStorageProof → RpcStorageProofsQuery → Result ProofProviderError StateCommitmentInfos
  create_commitment_infos_without_state_changes rpc_proof query = do
    storage ← build_storage_commitment_infos rpc_proof query
    ok (record {
      contracts_trie_commitment_info =
          unchanged rpc_proof.global_roots.contracts_tree_root rpc_proof.contracts_proof.nodes;
      classes_trie_commitment_info =
          unchanged rpc_proof.global_roots.classes_tree_root rpc_proof.classes_proof;
      storage_tries_commitment_infos = storage;
    })

  -- The new facts and the new roots.
  unfoldable pub commit_state_diff :
      Db codec → StateRoots → StateDiff → Result ProofProviderError (Db codec × StateRoots)
  commit_state_diff facts_db roots state_diff = do
    forest ← map_err block_commitment_error (commit_block facts_db roots state_diff)
    facts_db' ← map_err serialization_error (write forest facts_db)
    ok (
      facts_db',
      record {
        contracts_trie_root_hash = contract_root forest;
        classes_trie_root_hash = class_root forest;
      },
    )

  abbrev pub with_class_facts : StateCommitmentInfos → CommitmentFacts → StateCommitmentInfos
  with_class_facts infos facts = record infos {
    classes_trie_commitment_info = record (infos.classes_trie_commitment_info) {
      commitment_facts = extend infos.classes_trie_commitment_info.commitment_facts facts;
    };
  }

  unfoldable pub create_commitment_infos_with_state_changes :
      RpcStorageProof
      → RpcStorageProofsQuery
      → StateMaps
      → StateMaps
      → Result ProofProviderError StateCommitmentInfos
  create_commitment_infos_with_state_changes rpc_proof query extended_initial_reads state_diff = do
    facts_db ← create_facts_db_from_storage_proof codec rpc_proof query extended_initial_reads
    let previous : StateRoots = record {
      contracts_trie_root_hash = rpc_proof.global_roots.contracts_tree_root;
      classes_trie_root_hash = rpc_proof.global_roots.classes_tree_root;
    }
    let diff = state_maps_to_committer_state_diff storage_diff_from state_diff
    validate_virtual_os_state_diff diff
    committed ← commit_state_diff facts_db previous diff
    infos ←
        map_err block_commitment_error
          (create_commitment_infos previous committed.1 committed.0 extended_initial_reads)
    ok (
        with_class_facts infos
          (flatten_preimages (rpc_nodes_to_preimage_map rpc_proof.classes_proof)))

  -- The reads of the leaves, with the storage values of the execution.
  abbrev pub extended_reads : RpcStorageProof → RpcStorageProofsQuery → StateMaps → StateMaps
  extended_reads rpc_proof query initial_reads =
      let m =
        read_leaves (zip rpc_proof.contracts_proof.contract_leaves_data query.contract_addresses)
          empty_maps in
      record m { storage = extend m.storage initial_reads.storage }

  -- `state_diff` is the execution's, and is used only where state changes are included.
  unfoldable pub get_storage_proofs :
      GetStorageProof
      → ℕ
      → ExecutionReads
      → StateMaps
      → StorageProofConfig
      → Result ProofProviderError StorageProofs
  get_storage_proofs get_storage_proof block_number execution_data state_diff config = do
    let query = prepare_query get_contract_addresses execution_data
    rpc_proof ← fetch_proofs get_storage_proof block_number query
    reject_if
        (not (
          nat_beq (length rpc_proof.contracts_proof.contract_leaves_data)
            (length query.contract_addresses)))
        (invalid_proof_response leaves_length)
    let reads = extended_reads rpc_proof query execution_data.initial_reads
    infos ←
        (if config.include_state_changes
          then create_commitment_infos_with_state_changes rpc_proof query reads state_diff
          else create_commitment_infos_without_state_changes rpc_proof query)
    ok (record { extended_initial_reads = reads; commitment_infos = infos })
