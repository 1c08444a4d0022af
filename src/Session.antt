-- ===== src/Session.antt =====
-- crates/core/src/session: what one connection keeps, and the task that drives it.
pub mod Stream
pub mod DynamicTypes
pub mod RowShape
pub mod Startup
pub mod Cache
pub mod Driver
