-- ===== src/Routes.antt =====
-- crates/snip36-server/src/routes: the handlers besides those of the coin flip.
pub mod Program
pub mod World
pub mod Fund
pub mod Read
pub mod Invoke
pub mod Submit
pub mod Prove
pub mod Binary
pub mod ProveBlock
pub mod Landing
pub mod System
pub mod Sessions
pub mod Safe
pub mod Kept
pub mod Guarded
pub mod Tasks
pub mod Cycle
pub mod Consistency
pub mod Streams
pub mod Endings
pub mod Attempts
pub mod Rules
pub mod Predecessor
