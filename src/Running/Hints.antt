-- ===== src/Running/Hints.antt =====
-- portable-core/starknet_transaction_prover/src/running/runner.rs: the input of the virtual OS.
use snip36_prover_web.Common.{
  ℕ, Bool, false, Option, none, List, [], ◌∷◌, map, Result, ok, ◌>>=◌, map_err, nat_eq,
}
use snip36_prover_web.Common.Assoc.{Assoc, extend}
use snip36_prover_web.Proofs.Types.{Felt, ContractAddress, StorageProofConfig, ProofProviderError}
use snip36_prover_web.Committer.Types.{StateMaps}
use snip36_prover_web.Provider.Commitments.{CommitmentInfo, StorageProofs}
use snip36_prover_web.Running.Errors.{
  ClassesProviderError, RunnerError, classes_provider, proof_provider,
}
use snip36_prover_web.Running.Blockifier.{
  BlockHeaderCommitments, ExecutionOutput, Kinds, VirtualBlockExecutionData, Hashed,
}
use snip36_prover_web.Running.Classes.{ClassesInput}

-- `OsChainInfo`
pub record OsChainInfo (C : Type 0) : Type 0 where
  pub chain_id : C
  pub strk_fee_token_address : ContractAddress

-- `C` is the chain id, `S` the class of the OS, `X` the `CentralTransactionExecutionInfo`.
module _ (k : Kinds) (C S X : Type 0) where
  pub record VirtualOsBlockInput : Type 0 where
    pub contract_state_commitment_info : CommitmentInfo
    pub address_to_storage_commitment_info : Assoc ContractAddress CommitmentInfo
    pub contract_class_commitment_info : CommitmentInfo
    pub chain_info : OsChainInfo C
    pub transactions : Hashed k
    pub tx_execution_infos : List X
    pub block_info : k.BlockInfo
    pub initial_reads : StateMaps
    pub base_block_hash : Felt
    pub base_block_header_commitments : BlockHeaderCommitments
    pub prev_base_block_hash : Felt
    pub compiled_classes : Assoc Felt S

  -- `OsBlockInput`, with the invoke transactions that the source wraps as account transactions.
  pub record OsBlockInput : Type 0 where
    pub block_hash_commitments : BlockHeaderCommitments
    pub contract_state_commitment_info : CommitmentInfo
    pub address_to_storage_commitment_info : Assoc ContractAddress CommitmentInfo
    pub contract_class_commitment_info : CommitmentInfo
    pub transactions : Hashed k
    pub tx_execution_infos : List X
    pub prev_block_hash : Felt
    pub block_info : k.BlockInfo
    pub initial_reads : StateMaps
    pub declared_class_hash_to_component_hashes : Assoc Felt Felt
    pub new_block_hash : Felt
    pub old_block_number_and_hash : Option (ℕ × Felt)
    pub class_hashes_to_migrate : List Felt

  pub record OsHintsConfig : Type 0 where
    pub debug_mode : Bool
    pub full_output : Bool
    pub use_kzg_da : Bool
    pub chain_info : OsChainInfo C
    pub public_keys : Option (List Felt)
    pub rng_seed_salt : Option Felt

  -- `OsHints` with its `StarknetOsInput`
  pub record OsHints : Type 0 where
    pub os_block_inputs : List OsBlockInput
    pub deprecated_compiled_classes : Assoc Felt S
    pub compiled_classes : Assoc Felt S
    pub os_hints_config : OsHintsConfig

  -- `From<VirtualOsBlockInput> for OsHints`
  abbrev pub os_block_input : VirtualOsBlockInput → OsBlockInput
  os_block_input i = record {
    block_hash_commitments = i.base_block_header_commitments;
    contract_state_commitment_info = i.contract_state_commitment_info;
    address_to_storage_commitment_info = i.address_to_storage_commitment_info;
    contract_class_commitment_info = i.contract_class_commitment_info;
    transactions = i.transactions;
    tx_execution_infos = i.tx_execution_infos;
    prev_block_hash = i.prev_base_block_hash;
    block_info = i.block_info;
    initial_reads = i.initial_reads;
    declared_class_hash_to_component_hashes = [];
    new_block_hash = i.base_block_hash;
    old_block_number_and_hash = none;
    class_hashes_to_migrate = [];
  }

  unfoldable pub os_hints_of : VirtualOsBlockInput → OsHints
  os_hints_of i = record {
    os_block_inputs = os_block_input i ∷ [];
    deprecated_compiled_classes = [];
    compiled_classes = i.compiled_classes;
    os_hints_config = record {
      debug_mode = false;
      full_output = false;
      use_kzg_da = false;
      chain_info = i.chain_info;
      public_keys = none;
      rng_seed_salt = none;
    };
  }

  -- The traits `ClassesProvider` and `StorageProofProvider`, and what the function reads of the
  -- block context and the outputs.
  pub record Providers : Type 0 where
    pub get_classes : List Felt → Result ClassesProviderError (ClassesInput S)
    pub get_storage_proofs :
        ℕ
        → VirtualBlockExecutionData k
        → StorageProofConfig
        → Result ProofProviderError StorageProofs
    pub os_chain_info : k.ChainInfo → OsChainInfo C
    pub block_number : k.BlockInfo → ℕ
    pub central_info : ExecutionOutput k.ExecutionInfo k.Message → X

  -- The reads for the OS: compiled class hashes are added, declared contracts are cleared.
  abbrev pub os_reads : StateMaps → Assoc Felt Felt → StateMaps
  os_reads reads class_hash_to_compiled_class_hash = record reads {
    compiled_class_hashes = extend reads.compiled_class_hashes class_hash_to_compiled_class_hash;
    declared_contracts = [];
  }

  -- `VirtualOsBlockInput`, from the execution, the classes and the proofs.
  abbrev pub os_input :
      Providers
      → VirtualBlockExecutionData k
      → Hashed k
      → ClassesInput S
      → StorageProofs
      → VirtualOsBlockInput
  os_input p execution_data txs classes storage_proofs =
      let context = execution_data.base_block_info.block_context in
      record {
        contract_state_commitment_info =
            storage_proofs.commitment_infos.contracts_trie_commitment_info;
        address_to_storage_commitment_info =
            storage_proofs.commitment_infos.storage_tries_commitment_infos;
        contract_class_commitment_info =
            storage_proofs.commitment_infos.classes_trie_commitment_info;
        chain_info = p.os_chain_info context.chain_info;
        transactions = txs;
        tx_execution_infos = map p.central_info execution_data.execution_outputs;
        block_info = context.block_info;
        initial_reads =
            os_reads storage_proofs.extended_initial_reads
              classes.class_hash_to_compiled_class_hash;
        base_block_hash = execution_data.base_block_info.base_block_hash;
        base_block_header_commitments =
            execution_data.base_block_info.base_block_header_commitments;
        prev_base_block_hash = execution_data.base_block_info.prev_base_block_hash;
        compiled_classes = classes.compiled_classes;
      }

  unfoldable pub create_virtual_os_hints :
      Providers
      → VirtualBlockExecutionData k
      → StorageProofConfig
      → Hashed k
      → Result RunnerError OsHints
  unfolding os_hints_of
  create_virtual_os_hints p execution_data storage_proof_config txs = do
    let block_number = p.block_number execution_data.base_block_info.block_context.block_info
    classes ← map_err classes_provider (p.get_classes execution_data.executed_class_hashes)
    storage_proofs ←
        map_err proof_provider
          (p.get_storage_proofs block_number execution_data storage_proof_config)
    ok (os_hints_of (os_input p execution_data txs classes storage_proofs))
