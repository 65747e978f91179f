-- ===== src/Crypto.antt =====
-- crates/cordelia-crypto/src: encryption of payloads.
pub mod Provider
pub mod RoundTrip
mod Tests
