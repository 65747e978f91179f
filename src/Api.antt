-- ===== src/Api.antt =====
-- crates/cordelia-api/src/lib.rs: the HTTP API of the node.
pub mod State
pub mod Requests
pub mod Items
pub mod Groups
pub mod Devices
pub mod Status
pub mod Router
pub mod Auth
pub mod Writes
pub mod Deletes
pub mod GroupDeletion
pub mod SignedDeletion
mod Tests
