-- ===== src/Proving/Capacity.antt =====
-- portable-core/starknet_transaction_prover/src/server/rpc_impl.rs: the handler of the proving
-- requests. tokio's semaphore is a parameter: `try_acquire` gives a permit, which the handler holds
-- until it answers, or none.
use snip36_prover_web.Common.{ℕ, Bool, Option, none, some, Result, err, map_err}
use snip36_prover_web.Proving.Prover.{
  World, RpcTransaction, ProveTransactionResult, prove_transaction,
}
use snip36_prover_web.Proving.Errors.{ErrorObject, error_object, service_busy}

pub record Service (Semaphore : Type 0) : Type 0 where
  pub concurrency_semaphore : Semaphore
  pub max_concurrent_requests : ℕ

-- `ProvingRpcServerImpl::new`
unfoldable pub new : {Semaphore : Type 0} → (ℕ → Semaphore) → ℕ → Service Semaphore
new semaphore_new max = record {
  concurrency_semaphore = semaphore_new max;
  max_concurrent_requests = max;
}

-- The handler: it is refused without a permit, and proves with one.
unfoldable pub rpc_prove_transaction :
    {Semaphore Permit : Type 0} (w : World)
    → Bool
    → (Semaphore → Option Permit)
    → w.BlockId
    → RpcTransaction w.InvokeV3
    → Service Semaphore
    → Result ErrorObject (ProveTransactionResult w)
rpc_prove_transaction w validate_zero_fee_fields try_acquire block_id transaction s =
    elim (try_acquire s.concurrency_semaphore) [
      | none ↦ err (service_busy s.max_concurrent_requests)
      | some permit ↦
          map_err error_object (prove_transaction w validate_zero_fee_fields block_id transaction)
    ]
