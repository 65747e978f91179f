-- ===== src/ReplicationTask.antt =====
-- crates/cordelia-node/src/replication_task.rs: the loop that pushes local writes and syncs with peers.
pub mod State
pub mod Push
pub mod Sending
pub mod Retries
pub mod AntiEntropy
pub mod Sync
pub mod Turns
pub mod Peers
pub mod Chunks
pub mod Round
pub mod Flush
pub mod Delivery
mod Tests
