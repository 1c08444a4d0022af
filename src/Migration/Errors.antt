-- ===== src/Migration/Errors.antt =====
-- crates/core/src/migration/error.rs. A path is the list of its bytes, as a text is.
use babar.Prelude.{ℕ, List}

abbrev pub Text : Type 0
Text = List ℕ

pub data MigrationError : Type 0 where
  invalid_file_name : (file_name : Text) → MigrationError
  invalid_version : (version : Text) → MigrationError
  invalid_name : (name : Text) → MigrationError
  invalid_directive : (directive reason : Text) → MigrationError
  pair_mismatch : (up down : Text) → MigrationError
  invalid_checksum : (checksum : Text) → MigrationError
  invalid_source_path : (path reason : Text) → MigrationError
  duplicate_migration_script : (id kind first second : Text) → MigrationError
  conflicting_migration_version :
      (version : ℕ) (existing_name conflicting_name : Text) → MigrationError
  missing_migration_script : (id missing : Text) → MigrationError
  applied_migration_missing : (id : Text) → MigrationError
  applied_migration_order_mismatch : (expected actual : Text) → MigrationError
  drift_detected : (id reason : Text) → MigrationError
  invalid_table : (qualified_name reason : Text) → MigrationError
  invalid_applied_migration_row : (reason : Text) → MigrationError
