-- ===== src/Query.antt =====
-- crates/core/src/query: statements that are built from fragments.
pub mod Fragment
pub mod Pieces
pub mod Numbered
mod Tests
