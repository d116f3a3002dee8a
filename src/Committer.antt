-- ===== src/Committer.antt =====
-- portable-core/starknet_transaction_prover/src/running/committer_utils.rs: the state diff of a
-- virtual block, and the facts that the committer reads.
pub mod Types
pub mod Diff
pub mod Codec
pub mod Facts
pub mod Leaves
pub mod Closure
pub mod Stored
pub mod Traversal
pub mod Total
