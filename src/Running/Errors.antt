-- ===== src/Running/Errors.antt =====
-- portable-core/starknet_transaction_prover/src/errors.rs: the errors of the runner and its parts.
-- The texts of the errors of other crates stand for these errors.
use snip36_prover_web.Common.{String}
use snip36_prover_web.Proofs.Types.{Felt, ProofProviderError}

pub data VirtualBlockExecutorError : Type 0 where
  reexecution_error : String → VirtualBlockExecutorError
  transaction_execution_error : String → VirtualBlockExecutorError
  transaction_reverted : Felt → String → VirtualBlockExecutorError
  state_unavailable : VirtualBlockExecutorError
  bouncer_lock_error : String → VirtualBlockExecutorError

pub data ClassesProviderError : Type 0 where
  get_classes_error : String → ClassesProviderError
  deprecated_contract_error : Felt → ClassesProviderError
  invalid_bytecode_element : ClassesProviderError
  state_error : String → ClassesProviderError
  hints_conversion_error : String → ClassesProviderError

pub data RunnerError : Type 0 where
  classes_provider : ClassesProviderError → RunnerError
  proof_provider : ProofProviderError → RunnerError
  virtual_block_executor : VirtualBlockExecutorError → RunnerError
  os_execution : String → RunnerError
  input_generation_error : String → RunnerError
  transaction_hash_error : String → RunnerError
  task_join : String → RunnerError
