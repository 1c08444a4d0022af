-- ===== src/Migration/Model.antt =====
-- crates/core/src/migration/model.rs: scripts, pairs of scripts, and the rows of the state table. A
-- `SystemTime` is only carried along; it is a number here.
use babar.Prelude.{ℕ, Bool, true, false, ◌&&◌, Result, ok, err, if◌then◌else◌}
use babar.Rust.{ascii}
use babar.Migration.Errors.{Text, MigrationError, pair_mismatch}
use babar.Migration.Checksum.{MigrationChecksum}
use babar.Migration.Filename.{
  MigrationId, MigrationId-discrete, MigrationKind, up, down, MigrationFilename, file_name,
}
use mathlib.Core.Logic.{ite}

pub data MigrationTransactionMode : Type 0 where
  transactional non_transactional : MigrationTransactionMode

abbrev pub as_str : MigrationTransactionMode → Text
as_str transactional = ascii "transactional"
as_str non_transactional = ascii "non_transactional"

pub record MigrationScriptMetadata : Type 0 where
  pub transaction_mode : MigrationTransactionMode

pub record MigrationScript : Type 0 where
  pub file : MigrationFilename
  pub metadata : MigrationScriptMetadata
  pub contents : Text
  pub checksum : MigrationChecksum

pub record MigrationPair : Type 0 where
  pub id : MigrationId
  pub up_script : MigrationScript
  pub down_script : MigrationScript

abbrev pub is_up : MigrationKind → Bool
is_up up = true
is_up down = false

abbrev pub is_down : MigrationKind → Bool
is_down up = false
is_down down = true

-- `MigrationPair::new`.
unfoldable pub new_pair : MigrationScript → MigrationScript → Result MigrationError MigrationPair
new_pair u d =
    if is_up u.file.kind
      && is_down d.file.kind
      && ite (MigrationId-discrete u.file.id d.file.id) true false
    then ok (record { id = u.file.id; up_script = u; down_script = d })
    else err (pair_mismatch (file_name u.file) (file_name d.file))

pub record AppliedMigration : Type 0 where
  pub id : MigrationId
  pub up_checksum : MigrationChecksum
  pub down_checksum : MigrationChecksum
  pub up_transaction_mode : MigrationTransactionMode
  pub down_transaction_mode : MigrationTransactionMode
  pub applied_at : ℕ

pub MigrationTransactionMode-discrete : Discrete MigrationTransactionMode
MigrationTransactionMode-discrete = hlevel
