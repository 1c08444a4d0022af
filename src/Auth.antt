-- ===== src/Auth.antt =====
-- crates/core/src/auth: how a client proves that it knows the password.
pub mod Bits
pub mod Md5
pub mod Scram
pub mod Server
pub mod Verifier
pub mod Messages
pub mod Exchange
pub mod StandIn
mod Tests
