-- ===== src/Running.antt =====
-- portable-core/starknet_transaction_prover/src/running: the execution of a transaction on top of a
-- block, and the input of the virtual OS.
pub mod Errors
pub mod Blockifier
pub mod InitialReads
pub mod Reader
pub mod BaseBlock
pub mod Executor
pub mod RpcExecutor
pub mod Classes
pub mod Hints
pub mod Runner
pub mod Covers
pub mod Prepared
pub mod Prefetch
pub mod Outcome
pub mod Messages
pub mod Normal
pub mod Records
pub mod Replay
pub mod Reordered
