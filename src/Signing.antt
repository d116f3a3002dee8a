-- ===== src/Signing.antt =====
-- crates/snip36-pure: the hash of a v3 invoke transaction with proof facts, its signature, and the
-- payloads that are built from JSON input.
pub mod Types
pub mod Crates
pub mod TxHash
pub mod Packing
pub mod Binding
pub mod Payload
pub mod Signed
