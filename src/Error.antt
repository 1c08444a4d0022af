-- ===== src/Error.antt =====
-- crates/core/src/error.rs: the driver's errors. A message that the code formats is kept as data:
-- one constructor of `Message` for a format string, with the values that are printed.
mod Defs
pub mod Context
pub mod Fields
mod Tests
unfoldable pub use Defs.*
