-- ===== src/Storage.antt =====
-- crates/cordelia-storage: the rows, the interface that the other crates use, and the tables.
pub mod Rows
pub mod Interface
pub mod Items
pub mod ItemLaws
pub mod Groups
pub mod Members
pub mod Devices
pub mod Search
pub mod Membership
pub mod Revocation
pub mod Schema
mod Tests
