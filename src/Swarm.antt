-- ===== src/Swarm.antt =====
-- crates/cordelia-node/src/swarm_task.rs: the group descriptors that peers exchange.
pub mod Descriptors
pub mod Announce
pub mod Announced
pub mod Merge
pub mod Unverified
pub mod Requests
pub mod Exchange
pub mod Tombstone
mod Tests
