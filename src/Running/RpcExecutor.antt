-- ===== src/Running/RpcExecutor.antt =====
-- virtual_block_executor.rs: `RpcVirtualBlockExecutor`.
use snip36_prover_web.Common.{
  String, Bool, true, not, Option, none, some, List, [], ◌∷◌, ◌++◌, map, Result, ok, err, ◌>>=◌,
  ok_or, map_err, traverse, if◌then◌else◌,
}
use snip36_prover_web.Common.Text.{◌+++◌}
use snip36_prover_web.Common.Json.{Json, array, items, strs, obj, get}
use snip36_prover_web.Proofs.Types.{Felt}
use snip36_prover_web.Committer.Types.{StateMaps}
use snip36_prover_web.Running.Errors.{
  VirtualBlockExecutorError, reexecution_error, transaction_execution_error,
}
use snip36_prover_web.Running.Blockifier.{
  Kinds, BaseBlockInfo, Reader, Hashed, Blockifier, RpcStateReader,
}
use snip36_prover_web.Running.InitialReads.{RpcInitialReads, deserialize_rpc_initial_reads}
use snip36_prover_web.Running.Reader.{simulated_state_reader}
use snip36_prover_web.Running.BaseBlock.{base_block_info_new}
use snip36_prover_web.Running.Executor.{VirtualBlockExecutor}

pub record RpcVirtualBlockExecutorConfig (k : Kinds) : Type 0 where
  pub prefetch_state : Bool
  pub bouncer_config : k.BouncerConfig
  pub use_latest_versioned_constants : Bool

pub record RpcVirtualBlockExecutor (k : Kinds) : Type 0 where
  pub rpc_state_reader : RpcStateReader k
  pub validate_txs : Bool
  pub config : RpcVirtualBlockExecutorConfig k

module _ (k : Kinds) (b : Blockifier k) where
  -- `RpcVirtualBlockExecutorConfig::default()`
  unfoldable pub default_executor_config : RpcVirtualBlockExecutorConfig k
  default_executor_config = record {
    prefetch_state = true;
    bouncer_config = b.default_bouncer_config;
    use_latest_versioned_constants = true;
  }

  -- `connect` is `RpcStateReader::new_with_config_from_url`.
  unfoldable pub new_executor :
      (String → k.ChainInfo → k.BlockId → RpcStateReader k)
      → String
      → k.ChainInfo
      → k.BlockId
      → RpcVirtualBlockExecutorConfig k
      → RpcVirtualBlockExecutor k
  new_executor connect node_url chain_info block_id config = record {
    rpc_state_reader = connect node_url chain_info block_id;
    validate_txs = true;
    config = config;
  }

  abbrev rpc_tx_of :
      Option (Result String k.RpcTransaction) → Result VirtualBlockExecutorError k.RpcTransaction
  rpc_tx_of none =
      err (transaction_execution_error "Only Invoke V3 transactions are supported for simulate")
  rpc_tx_of (some r) = map_err transaction_execution_error r

  abbrev simulation_flags : Bool → List String
  simulation_flags validate_txs =
      ("RETURN_INITIAL_READS" ∷ [])
      ++ (if not validate_txs then "SKIP_VALIDATE" ∷ [] else [])
      ++ ("SKIP_FEE_CHARGE" ∷ [])

  module _ (from_value : Json → Result String RpcInitialReads) where
    unfoldable pub simulate_and_get_initial_reads :
        RpcVirtualBlockExecutor k
        → k.BlockId
        → Hashed k
        → Result VirtualBlockExecutorError StateMaps
    unfolding deserialize_rpc_initial_reads
    simulate_and_get_initial_reads x block_id txs = do
      rpc_txs ← traverse (λ (t : k.InvokeTransaction × Felt). rpc_tx_of (b.as_rpc_v3 t.0)) txs
      let params = obj (
          ("block_id", b.block_id_json block_id)
          ∷ ("transactions", array (items (map b.rpc_transaction_json rpc_txs)))
          ∷ ("simulation_flags", strs (simulation_flags x.validate_txs))
          ∷ [])
      result ←
          map_err reexecution_error
            (x.rpc_state_reader.send_rpc_request "starknet_simulateTransactions" params)
      initial_reads_value ← ok_or (get "initial_reads" result) (
          transaction_execution_error
            "simulateTransactions response missing initial_reads (ensure RETURN_INITIAL_READS and v0.10 endpoint)")
      map_err (λ e. transaction_execution_error ("Failed to deserialize initial_reads: " +++ e))
          (deserialize_rpc_initial_reads from_value initial_reads_value)

    unfoldable pub rpc_base_block_info :
        RpcVirtualBlockExecutor k → Result VirtualBlockExecutorError (BaseBlockInfo k)
    unfolding base_block_info_new
    rpc_base_block_info x = do
      block_header ← map_err reexecution_error x.rpc_state_reader.get_block_header
      base_block_info ←
          base_block_info_new k b block_header x.rpc_state_reader.chain_info
            x.config.use_latest_versioned_constants
      ok (record base_block_info {
        block_context = record (base_block_info.block_context) {
          bouncer_config = x.config.bouncer_config;
        };
      })

    unfoldable pub rpc_state_reader :
        RpcVirtualBlockExecutor k
        → k.BlockId
        → Hashed k
        → Result VirtualBlockExecutorError (Reader k)
    unfolding simulate_and_get_initial_reads simulated_state_reader
    rpc_state_reader x block_id txs =
        if x.config.prefetch_state
        then (simulate_and_get_initial_reads x block_id txs >>= λ state_maps.
            ok (simulated_state_reader state_maps x.rpc_state_reader.reader))
        else ok x.rpc_state_reader.reader

    -- `impl VirtualBlockExecutor for RpcVirtualBlockExecutor`
    unfoldable pub rpc_executor : RpcVirtualBlockExecutor k → VirtualBlockExecutor k
    unfolding rpc_base_block_info rpc_state_reader
    rpc_executor x = record {
      base_block_info = λ block_id. rpc_base_block_info x;
      state_reader = rpc_state_reader x;
      validate_txs_enabled = ok x.validate_txs;
    }
