-- ===== src/Proving.antt =====
-- portable-core/starknet_transaction_prover/src: the prover behind the JSON-RPC service, its errors
-- and its limit on concurrent requests.
pub mod Prover
pub mod Errors
pub mod Capacity
pub mod Answers
