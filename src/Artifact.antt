-- ===== src/Artifact.antt =====
-- crates/snip36-artifact/src/lib.rs and crates/snip36-pure/src/lib.rs: artifacts and proof bundles.
pub mod Bundle
pub mod Replay
