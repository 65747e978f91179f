-- ===== src/Pool.antt =====
-- crates/cordelia-node/src/peer_pool.rs: the registry of connected peers that the tasks share.
pub mod Peers
pub mod Select
pub mod Actions
pub mod Invariant
mod Tests
