-- ===== src/Core.antt =====
-- crates/snip36-core/src: the configuration from the environment, and the proof encoding.
pub mod Config
pub mod ChainId
pub mod Encoding
pub mod Words
pub mod Loading
