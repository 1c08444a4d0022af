-- ===== src/Migration.antt =====
-- crates/core/src/migration: schema migrations, from the names of their files to plans.
pub mod Errors
pub mod Checksum
pub mod Filename
pub mod Model
pub mod Directives
pub mod Catalog
pub mod Plan
pub mod Table
pub mod Statements
pub mod Runner
mod Tests
