-- ===== src/Examples.antt =====
-- Concrete inputs at which the theorems are applied.
mod Fetching
mod Committing
mod Signing
mod Configuring
mod Serving
mod Proving
mod Flipping
mod Providing
mod Loading
mod Bundling
mod Running
mod Hinting
mod Recording
mod Routing
