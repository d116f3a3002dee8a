-- ===== src/Proofs/Types.antt =====
-- The data of portable-core/starknet_transaction_prover/src/running/storage_proofs.rs: queries,
-- their flattened items, and the RPC response type that the file reads and builds.
use snip36_prover_web.Common.{ℕ, List, [], Option, Bool}
use snip36_prover_web.Common.Assoc.{Assoc}

-- A field element by its canonical value. Keys and hashes are only compared here.
abbrev pub Felt : Type 0
Felt = ℕ

-- A contract address wraps a patricia key, which wraps a felt: `*a.0.key()` is the number itself.
abbrev pub ContractAddress : Type 0
ContractAddress = Felt

pub record ContractStorageKeys : Type 0 where
  pub contract_address : Felt
  pub storage_keys : List Felt

pub record RpcStorageProofsQuery : Type 0 where
  pub class_hashes : List Felt
  pub contract_addresses : List ContractAddress
  pub contract_storage_keys : List ContractStorageKeys

-- `RpcStorageProofsQuery::default()`
abbrev pub empty_query : RpcStorageProofsQuery
empty_query = record { class_hashes = []; contract_addresses = []; contract_storage_keys = [] }

-- One key of a flattened query; each counts as 1 toward the RPC limit.
pub data QueryItem : Type 0 where
  class_hash : Felt → QueryItem
  contract_address : ContractAddress → QueryItem
  storage_key : Felt → Felt → QueryItem

-- The RPC's node types (starknet_rust_core::types).
pub data MerkleNode : Type 0 where
  binary_node : Felt → Felt → MerkleNode
  edge_node : Felt → ℕ → Felt → MerkleNode

abbrev pub Nodes : Type 0
Nodes = Assoc Felt MerkleNode

pub record ContractLeafData : Type 0 where
  pub nonce : Felt
  pub class_hash : Felt
  pub storage_root : Option Felt

pub record ContractsProof : Type 0 where
  pub nodes : Nodes
  pub contract_leaves_data : List ContractLeafData

pub record GlobalRoots : Type 0 where
  pub contracts_tree_root : Felt
  pub classes_tree_root : Felt
  pub block_hash : Felt

pub record RpcStorageProof : Type 0 where
  pub classes_proof : Nodes
  pub contracts_proof : ContractsProof
  pub contracts_storage_proofs : List Nodes
  pub global_roots : GlobalRoots

-- `StorageProofConfig`, and its default.
pub record StorageProofConfig : Type 0 where
  pub include_state_changes : Bool

-- What an `InvalidStateDiff` message reports.
pub data DiffFault : Type 0 where
  deletion : ContractAddress → Felt → DiffFault
  deployments declarations : DiffFault

-- What an `InvalidProofResponse` message reports.
pub data ProofFault : Type 0 where
  leaves_length storage_proofs_length : ProofFault
  bad_address : Felt → ProofFault
  missing_leaf : ContractAddress → ProofFault

-- ProofProviderError (errors.rs), with the data of each message in place of its text. `panicked` is no value of that enum: it stands for a failed
-- assertion or an `expect`.
pub data ProofProviderError : Type 0 where
  invalid_state_diff : DiffFault → ProofProviderError
  rpc : ℕ → ProofProviderError
  serialization_error : ℕ → ProofProviderError
  invalid_proof_response : ProofFault → ProofProviderError
  block_commitment_error : ℕ → ProofProviderError
  panicked : ProofProviderError
