-- ===== src/Config.antt =====
-- portable-core/starknet_transaction_prover/src/server: the configuration of the proving service.
pub mod Cors
pub mod Origins
pub mod Types
pub mod Args
pub mod Overrides
