-- ===== src/GovernorTask.antt =====
-- crates/cordelia-node/src/governor_task.rs: the loop that ties the governor to the pool and the swarm.
pub mod State
pub mod Events
pub mod Tick
pub mod Loop
pub mod Admission
pub mod Discovery
pub mod Tests
