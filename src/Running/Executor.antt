-- ===== src/Running/Executor.antt =====
-- virtual_block_executor.rs: the trait `VirtualBlockExecutor` and its `execute`.
use snip36_prover_web.Common.{
  Bool, false, none, some, List, [], ◌∷◌, map, concat, ltb, Result, ok, err, ◌>>=◌, ◌>>◌, ok_or,
  map_err, traverse,
}
use snip36_prover_web.Common.Text.{◌+++◌}
use snip36_prover_web.Proofs.Types.{Felt}
use snip36_prover_web.Running.Errors.{
  VirtualBlockExecutorError, reexecution_error, transaction_execution_error, transaction_reverted,
  state_unavailable, bouncer_lock_error,
}
use snip36_prover_web.Running.Blockifier.{
  ExecutionOutput, Kinds, BaseBlockInfo, VirtualBlockExecutionData, Reader, Hashed, Blockifier,
}

-- What an implementation of the trait provides.
pub record VirtualBlockExecutor (k : Kinds) : Type 0 where
  pub base_block_info : k.BlockId → Result VirtualBlockExecutorError (BaseBlockInfo k)
  pub state_reader : k.BlockId → Hashed k → Result VirtualBlockExecutorError (Reader k)
  pub validate_txs_enabled : Result VirtualBlockExecutorError Bool

-- The loop over the outputs and the hashes.
unfoldable pub reject_reverted :
    {I M : Type 0}
    → List (ExecutionOutput I M)
    → List Felt
    → Result VirtualBlockExecutorError (Unit {0})
reject_reverted [] hashes = ok tt
reject_reverted (output ∷ outputs) [] = ok tt
reject_reverted (output ∷ outputs) (tx_hash ∷ hashes) =
    let rest = reject_reverted outputs hashes in
    elim (output.revert_error) [
      | some revert_error ↦ err (transaction_reverted tx_hash revert_error)
      | none ↦ rest
    ]

-- The messages of one output, over all of its call infos, and of all outputs.
abbrev pub messages_of : {I M : Type 0} → List (ExecutionOutput I M) → List M
messages_of outputs = concat (map (λ o. concat o.messages_of_calls) outputs)

module _ (k : Kinds) (b : Blockifier k) (v : VirtualBlockExecutor k) where
  -- The closure of `convert_invoke_txs`.
  unfoldable pub convert_invoke_tx :
      k.InvokeTransaction × Felt → Result VirtualBlockExecutorError k.BlockifierTransaction
  convert_invoke_tx (invoke_tx, tx_hash) = do
    validate ← v.validate_txs_enabled
    map_err transaction_execution_error (
        b.from_api invoke_tx tx_hash (record {
          only_query = false;
          charge_fee = ltb 0 (b.max_possible_fee invoke_tx);
          validate = validate;
          strict_nonce_check = false;
        }))

  unfoldable pub convert_invoke_txs :
      Hashed k → Result VirtualBlockExecutorError (List k.BlockifierTransaction)
  unfolding convert_invoke_tx
  convert_invoke_txs txs = traverse convert_invoke_tx txs

  unfoldable pub execute :
      k.BlockId
      → k.ClassManager
      → Hashed k
      → Result VirtualBlockExecutorError (VirtualBlockExecutionData k)
  unfolding convert_invoke_txs reject_reverted
  execute block_id contract_class_manager txs = do
    base_block_info ← v.base_block_info block_id
    state_reader ← v.state_reader block_id txs
    let tx_hashes = map (λ t. t.1) txs
    blockifier_txs ← convert_invoke_txs txs
    let executed =
        b.execute_txs state_reader contract_class_manager base_block_info.block_context
          blockifier_txs
    execution_outputs ← traverse (map_err transaction_execution_error) executed.results
    reject_reverted execution_outputs tx_hashes
    block_state ← ok_or executed.block_state state_unavailable
    initial_reads ← map_err reexecution_error block_state.0
    state_diff ←
        map_err (λ e. transaction_execution_error ("Failed to get state diff: " +++ e))
          block_state.1
    executed_class_hashes ← map_err bouncer_lock_error executed.executed_class_hashes
    ok (record {
      execution_outputs = execution_outputs;
      initial_reads = initial_reads;
      state_diff = state_diff;
      executed_class_hashes = executed_class_hashes;
      l2_to_l1_messages = messages_of execution_outputs;
      base_block_info = base_block_info;
    })
