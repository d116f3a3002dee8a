-- ===== src/Proofs.antt =====
-- portable-core/starknet_transaction_prover/src/running/storage_proofs.rs: storage proofs of the
-- initial state, fetched in chunks and merged.
pub mod Types
pub mod Query
pub mod Merge
pub mod Items
pub mod Split
pub mod Node
pub mod Position
pub mod Keys
pub mod Refines
pub mod Parts
pub mod Fetch
