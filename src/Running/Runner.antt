-- ===== src/Running/Runner.antt =====
-- portable-core/starknet_transaction_prover/src/running/runner.rs: `Runner` and `RpcRunnerFactory`.
use snip36_prover_web.Common.{
  String, Option, none, some, List, Result, ok, err, ◌>>=◌, ◌>>◌, map_err, traverse,
}
use snip36_prover_web.Common.Json.{Json}
use snip36_prover_web.Proofs.Types.{Felt, StorageProofConfig}
use snip36_prover_web.Running.Errors.{
  RunnerError, virtual_block_executor, os_execution, transaction_hash_error, task_join,
}
use snip36_prover_web.Running.Blockifier.{Kinds, Blockifier, RpcStateReader}
use snip36_prover_web.Running.InitialReads.{RpcInitialReads}
use snip36_prover_web.Running.Executor.{VirtualBlockExecutor, execute}
use snip36_prover_web.Running.RpcExecutor.{
  RpcVirtualBlockExecutorConfig, new_executor, rpc_executor,
}
use snip36_prover_web.Running.Hints.{OsHints, Providers, create_virtual_os_hints}

pub record RunnerConfig (k : Kinds) : Type 0 where
  pub storage_proof_config : StorageProofConfig
  pub virtual_block_executor_config : RpcVirtualBlockExecutorConfig k

-- `P` is the Cairo PIE.
pub record RunnerOutput (k : Kinds) (P : Type 0) : Type 0 where
  pub cairo_pie : P
  pub l2_to_l1_messages : List k.Message

module _ (k : Kinds) (b : Blockifier k) (C S X P : Type 0) where
  pub record Runner : Type 0 where
    pub providers : Providers k C S X
    pub executor : VirtualBlockExecutor k
    pub config : RunnerConfig k
    pub contract_class_manager : k.ClassManager
    pub block_id : k.BlockId
    pub chain_id : C

  -- `calculate_transaction_hash`, the OS, and the blocking task, where it fails to join.
  pub record Os : Type 0 where
    pub calculate_transaction_hash : C → k.InvokeTransaction → Result String Felt
    pub run_virtual_os : OsHints k C S X → Result String P
    pub join_error : Option String

  abbrev joined : Option String → Result RunnerError (Unit {0})
  joined none = ok tt
  joined (some e) = err (task_join e)

  module _ (os : Os) where
    abbrev pub with_hash : C → k.InvokeTransaction → Result RunnerError (k.InvokeTransaction × Felt)
    with_hash chain_id tx =
        map_err transaction_hash_error (os.calculate_transaction_hash chain_id tx) >>= λ tx_hash.
        ok (tx, tx_hash)

    unfoldable pub run_virtual_os :
        Runner → List k.InvokeTransaction → Result RunnerError (RunnerOutput k P)
    unfolding execute create_virtual_os_hints
    run_virtual_os r txs = do
      txs_with_hashes ← traverse (with_hash r.chain_id) txs
      joined os.join_error
      execution_data ←
          map_err virtual_block_executor
            (execute k b r.executor r.block_id r.contract_class_manager txs_with_hashes)
      os_hints ←
          create_virtual_os_hints k C S X r.providers execution_data r.config.storage_proof_config
            txs_with_hashes
      cairo_pie ← map_err os_execution (os.run_virtual_os os_hints)
      ok (record { cairo_pie = cairo_pie; l2_to_l1_messages = execution_data.l2_to_l1_messages })

    pub record RpcRunnerFactory : Type 0 where
      pub node_url : String
      pub chain_info : k.ChainInfo
      pub contract_class_manager : k.ClassManager
      pub runner_config : RunnerConfig k

    -- The connections of a runner: the node's state at a block, the classes through it and the
    -- manager, and the proofs of the node.
    pub record Connections : Type 0 where
      pub connect : String → k.ChainInfo → k.BlockId → RpcStateReader k
      pub providers_for : String → RpcStateReader k → k.ClassManager → Providers k C S X
      pub chain_id_of : k.ChainInfo → C
      pub from_value : Json → Result String RpcInitialReads

    module _ (n : Connections) where
      unfoldable pub create_runner : RpcRunnerFactory → k.BlockId → Runner
      unfolding new_executor rpc_executor
      create_runner f block_id = record {
        providers =
            n.providers_for f.node_url (n.connect f.node_url f.chain_info block_id)
              f.contract_class_manager;
        executor = rpc_executor k b n.from_value (
            new_executor k b n.connect f.node_url f.chain_info block_id
              f.runner_config.virtual_block_executor_config);
        config = f.runner_config;
        contract_class_manager = f.contract_class_manager;
        block_id = block_id;
        chain_id = n.chain_id_of f.chain_info;
      }

      unfoldable pub factory_run_virtual_os :
          RpcRunnerFactory
          → k.BlockId
          → List k.InvokeTransaction
          → Result RunnerError (RunnerOutput k P)
      unfolding create_runner run_virtual_os
      factory_run_virtual_os f block_id txs = run_virtual_os (create_runner f block_id) txs
