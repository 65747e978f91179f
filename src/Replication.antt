-- ===== src/Replication.antt =====
-- crates/cordelia-replication: cultures, header comparison, and the engine.
pub mod Culture
pub mod Engine
pub mod Receive
pub mod Versions
pub mod Convergence
pub mod Diff
pub mod Batches
mod Tests
