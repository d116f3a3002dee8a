-- ===== src/Server.antt =====
-- crates/snip36-server: the shared state and the handlers of the coin flip.
pub mod State
pub mod Coinflip
pub mod Betting
pub mod Revealing
pub mod Task
pub mod Flip
pub mod Run
pub mod Submitting
pub mod Terminal
pub mod Streaming
