-- ===== src/Rpc.antt =====
-- crates/snip36-core/src/rpc.rs: the JSON-RPC client.
pub mod Client
pub mod Polling
pub mod Waiting
pub mod Receipts
