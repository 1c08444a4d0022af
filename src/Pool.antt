-- ===== src/Pool.antt =====
-- crates/core/src/pool.rs: the connection pool.
pub mod Config
pub mod Tasks
pub mod System
pub mod Invariants
pub mod Slots
pub mod Sessions
pub mod Closing
mod Tests
