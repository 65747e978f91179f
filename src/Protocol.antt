-- ===== src/Protocol.antt =====
-- crates/cordelia-protocol: the era's parameters and the wire messages.
pub mod Era
pub mod Messages
