-- ===== src/Governor.antt =====
-- crates/cordelia-governor/src/lib.rs: the peer state machine.
pub mod Peer
pub mod Backoff
pub mod Handlers
pub mod Tick
pub mod Steps
pub mod Events
pub mod Invariant
pub mod Count
pub mod Targets
pub mod Bounds
pub mod Dialing
pub mod Selected
pub mod Bans
pub mod BanLifting
pub mod Tests
