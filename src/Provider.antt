-- ===== src/Provider.antt =====
-- portable-core/starknet_transaction_prover/src/running/storage_proofs.rs: the provider, from the
-- execution data to the OS's commitment infos.
pub mod Prepare
pub mod Sorting
pub mod Ordered
pub mod Commitments
pub mod Honest
pub mod Changes
