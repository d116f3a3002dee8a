-- ===== src/Running/Blockifier.antt =====
-- The data that virtual_block_executor.rs takes from the blockifier and starknet_api: headers, block
-- contexts, transactions and their outputs.
use snip36_prover_web.Common.{ℕ, String, Bool, Option, List, Result}
use snip36_prover_web.Common.Json.{Json}
use snip36_prover_web.Proofs.Types.{Felt, ContractAddress}
use snip36_prover_web.Committer.Types.{StateMaps}

pub record BlockHeader : Type 0 where
  pub block_hash : Felt
  pub parent_hash : Felt
  pub block_number : ℕ
  pub starknet_version : String
  pub transaction_commitment : Felt
  pub event_commitment : Felt
  pub receipt_commitment : Felt
  pub state_diff_commitment : Felt
  pub transaction_count : ℕ
  pub event_count : ℕ
  pub state_diff_length : ℕ
  pub l1_da_mode : ℕ

pub record BlockHeaderCommitments : Type 0 where
  pub transaction_commitment : Felt
  pub event_commitment : Felt
  pub receipt_commitment : Felt
  pub state_diff_commitment : Felt
  pub concatenated_counts : Felt

pub record ExecutionFlags : Type 0 where
  pub only_query : Bool
  pub charge_fee : Bool
  pub validate : Bool
  pub strict_nonce_check : Bool

-- The reads that the executor makes. `S` is the blockifier's `RunnableCompiledClass`, `F` its
-- `CompiledClasses`; an error is its text.
pub record StateReader (S F : Type 0) : Type 0 where
  pub get_storage_at : ContractAddress → Felt → Result String Felt
  pub get_nonce_at : ContractAddress → Result String Felt
  pub get_class_hash_at : ContractAddress → Result String Felt
  pub get_compiled_class : Felt → Result String S
  pub get_compiled_class_hash : Felt → Result String Felt
  pub get_compiled_class_hash_v2 : Felt → S → Result String Felt
  pub get_compiled_classes : Felt → Result String F
  pub is_declared : Felt → Result String Bool

-- The versioned constants: the two that the source sets, and the others.
pub record VersionedConstants (R : Type 0) : Type 0 where
  pub enable_casm_hash_migration : Bool
  pub min_sierra_version_for_sierra_gas : ℕ × ℕ × ℕ
  pub others : R

-- A transaction's output: why it reverted, where it did, and for each of its call infos (those of
-- validation, execution and fee transfer, in this order) the sorted messages to L1.
pub record ExecutionOutput (I M : Type 0) : Type 0 where
  pub info : I
  pub revert_error : Option String
  pub messages_of_calls : List (List M)

-- The executor after its run.
pub record Executed (I M : Type 0) : Type 0 where
  pub results : List (Result String (ExecutionOutput I M))
  -- `block_state`, with `get_initial_reads` and `to_state_diff` on it
  pub block_state : Option (Result String StateMaps × Result String StateMaps)
  -- the bouncer's lock, with `get_executed_class_hashes`
  pub executed_class_hashes : Result String (List Felt)

-- The types of the other crates.
pub record Kinds : Type 1 where
  pub InvokeTransaction : Type 0
  pub BlockifierTransaction : Type 0
  pub RpcTransaction : Type 0
  pub ExecutionInfo : Type 0
  pub Message : Type 0
  pub BlockInfo : Type 0
  pub ChainInfo : Type 0
  pub Constants : Type 0
  pub BouncerConfig : Type 0
  pub CompiledClass : Type 0
  pub CompiledClasses : Type 0
  pub ClassManager : Type 0
  pub BlockId : Type 0

module _ (k : Kinds) where
  pub record BlockContext : Type 0 where
    pub block_info : k.BlockInfo
    pub chain_info : k.ChainInfo
    pub versioned_constants : VersionedConstants k.Constants
    pub bouncer_config : k.BouncerConfig

  pub record BaseBlockInfo : Type 0 where
    pub block_context : BlockContext
    pub base_block_hash : Felt
    pub base_block_header_commitments : BlockHeaderCommitments
    pub prev_base_block_hash : Felt

  pub record VirtualBlockExecutionData : Type 0 where
    pub execution_outputs : List (ExecutionOutput k.ExecutionInfo k.Message)
    pub initial_reads : StateMaps
    pub state_diff : StateMaps
    pub executed_class_hashes : List Felt
    pub l2_to_l1_messages : List k.Message
    pub base_block_info : BaseBlockInfo

  abbrev pub Reader : Type 0
  Reader = StateReader k.CompiledClass k.CompiledClasses

  abbrev pub Hashed : Type 0
  Hashed = List (k.InvokeTransaction × Felt)

  -- What the files of this directory call of the blockifier and starknet_api.
  pub record Blockifier : Type 0 where
    pub concat_counts : ℕ → ℕ → ℕ → ℕ → Felt
    -- `BlockInfo::try_from(header)`
    pub block_info_of : BlockHeader → Result String k.BlockInfo
    pub starknet_version : k.BlockInfo → String
    pub latest_constants : VersionedConstants k.Constants
    -- `VersionedConstants::get`
    pub constants_of : String → Result String (VersionedConstants k.Constants)
    pub default_bouncer_config : k.BouncerConfig
    -- `tx.resource_bounds().max_possible_fee(tx.tip())`
    pub max_possible_fee : k.InvokeTransaction → ℕ
    -- `BlockifierTransaction::from_api` on an invoke transaction
    pub from_api :
        k.InvokeTransaction → Felt → ExecutionFlags → Result String k.BlockifierTransaction
    -- `TransactionExecutor::execute_txs` with the default configuration
    pub execute_txs :
        Reader
        → k.ClassManager
        → BlockContext
        → List k.BlockifierTransaction
        → Executed k.ExecutionInfo k.Message
    -- `RpcInvokeTransactionV3::try_from`; none for another version
    pub as_rpc_v3 : k.InvokeTransaction → Option (Result String k.RpcTransaction)
    pub block_id_json : k.BlockId → Json
    pub rpc_transaction_json : k.RpcTransaction → Json

  -- `RpcStateReader`: the node's state at one block.
  pub record RpcStateReader : Type 0 where
    pub reader : Reader
    pub chain_info : k.ChainInfo
    pub get_block_header : Result String BlockHeader
    pub send_rpc_request : String → Json → Result String Json
