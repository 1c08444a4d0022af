-- ===== src/Migration/Filename/Tests.antt =====
-- The theorems on file names at concrete files.
use babar.Prelude.{◌≡◌, refl, some, ◌++◌, false, ok, arith, List, [], ◌∷◌, All}
use babar.Rust.{ascii, IsU64, parse_u64, from_utf8, is_utf8}
use babar.Prelude.Assoc.{lookup, insert}
use babar.Migration.Errors.{Text}
use babar.Migration.Checksum.{MigrationChecksum}
use babar.Migration.Model.{MigrationScript, MigrationPair, transactional, new_pair}
use babar.Migration.Directives.{parse_metadata, parse_lines, lines, trim}
use babar.Migration.Catalog.{
  MigrationAsset, from_assets, add_assets, add_asset, parse_asset, new_script, path_file_name,
  last_component, split_path, update_builder, insert_script, finish_all, finish,
}
use babar.Migration.Catalog.Built.{IsBuilt, from_assets-IsCatalog}
use babar.Migration.Plan.History.{IsCatalog}
use babar.Migration.Filename.{
  MigrationKind, leb_id, MigrationFilename, MigrationId, up, down, parse_filename, file_name,
  is_bad_name, strip_suffix, split_underscores, split_kind, new_id,
}
use babar.Migration.Filename.Grammar.{parse_filename-file_name}
use babar.Migration.Filename.Accepted.{IsName, kind_suffix, parse_filename_accepts}

abbrev users : MigrationId
users = record { version = 20240623153000; name = ascii "create_users" }

users_valid : is_bad_name (ascii "create_users") ≡ false
unfolding is_bad_name strip_suffix split_underscores babar.Migration.Filename.Text-discrete
    native.Mathlib.Decide.ℕ_discrete
users_valid = refl

abbrev users_up : MigrationFilename
users_up = record { id = users; kind = up }

abbrev users_down : MigrationFilename
users_down = record { id = users; kind = down }

users_name : parse_filename (ascii "20240623153000__create_users.up.sql") ≡ ok users_up
unfolding parse_filename strip_suffix split_kind split_underscores new_id is_bad_name parse_u64
    babar.Migration.Filename.Text-discrete native.Mathlib.Decide.ℕ_discrete
users_name = refl

parse_filename-file_name_example : parse_filename (file_name users_down) ≡ ok users_down
parse_filename-file_name_example = parse_filename-file_name users_down (omega arith, users_valid)

parse_filename_accepts_example :
    IsU64 20240623153000
    × IsName (ascii "create_users")
    × (version : Text) × (parse_u64 version ≡ some 20240623153000)
    × (ascii "20240623153000__create_users.up.sql"
        ≡ version ++ ((b'_' ∷ b'_' ∷ ascii "create_users") ++ kind_suffix up))
parse_filename_accepts_example =
    parse_filename_accepts (ascii "20240623153000__create_users.up.sql") users_name

abbrev no_hash : Text → MigrationChecksum
no_hash contents = contents

abbrev first_files : List MigrationAsset
first_files =
    record { path = ascii "m/1__a.down.sql"; contents = ascii "D" }
    ∷ record { path = ascii "m/1__a.up.sql"; contents = ascii "U" }
    ∷ []

abbrev first_script : MigrationKind → Text → MigrationScript
first_script k contents = record {
  file = record { id = record { version = 1; name = ascii "a" }; kind = k };
  metadata = record { transaction_mode = transactional };
  contents = contents;
  checksum = contents;
}

abbrev first_catalog : List MigrationPair
first_catalog =
    record {
      id = record { version = 1; name = ascii "a" };
      up_script = first_script up (ascii "U");
      down_script = first_script down (ascii "D");
    }
    ∷ []

first_files_pair : from_assets no_hash first_files ≡ ok first_catalog
unfolding from_assets add_assets add_asset parse_asset new_script path_file_name last_component
    split_path parse_filename strip_suffix split_kind split_underscores new_id is_bad_name parse_u64
    parse_metadata parse_lines lines trim from_utf8 is_utf8 update_builder insert_script finish_all
    finish new_pair leb_id lookup insert babar.Migration.Filename.Text-discrete
    babar.Migration.Filename.MigrationId-discrete native.Mathlib.Decide.ℕ_discrete
first_files_pair = refl

from_assets-IsCatalog_example :
    IsCatalog first_catalog × All (IsBuilt no_hash first_files) first_catalog
from_assets-IsCatalog_example = from_assets-IsCatalog no_hash first_files first_files_pair
