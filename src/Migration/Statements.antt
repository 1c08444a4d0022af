-- ===== src/Migration/Statements.antt =====
-- crates/core/src/migration/runner.rs: the statements that the runner sends, and the rows that it reads.
use babar.Prelude.{
  ℕ, ◌+◌, List, [], ◌∷◌, ◌++◌, Option, none, some, Result, ok, err, if◌then◌else◌, ◌==◌, length,
  get_elem?,
}
use babar.Rust.{ascii, u64_to_string, ℤ, pos, negsuc, from_utf8, parse_u64}
use babar.Error.{Error}
use babar.Migration.Errors.{Text, MigrationError, invalid_applied_migration_row}
use babar.Migration.Checksum.{to_hex, parse_checksum}
use babar.Migration.Filename.{new_id}
use babar.Migration.Directives.{parse_directive}
use babar.Migration.Model.{MigrationPair, AppliedMigration, MigrationTransactionMode, as_str}
use babar.Migration.Table.{MigrationTable, qualified_name, escape_sql_literal}

-- An `Error`, or a `MigrationError` that has become one.
pub data RunError : Type 0 where
  of_session : Error → RunError
  of_migration : MigrationError → RunError

abbrev pub RawRows : Type 0
RawRows = List (List (Option Text))

abbrev pub of_result : {A : Type 0} → Result MigrationError A → Result RunError A
of_result (ok a) = ok a
of_result (err e) = err (of_migration e)

-- `{}` on an `i64`.
abbrev pub i64_to_string : ℤ → Text
i64_to_string (pos n) = u64_to_string n
i64_to_string (negsuc n) = b'-' ∷ u64_to_string (n + 1)

abbrev pub quoted : Text → Text
quoted s = b'\'' ∷ s ++ (b'\'' ∷ [])

unfoldable pub insert_applied_migration_sql : MigrationTable → MigrationPair → Text
insert_applied_migration_sql table p =
    ascii "INSERT INTO "
    ++ qualified_name table
    ++ ascii
        " (version, name, up_checksum, down_checksum, up_transaction_mode, down_transaction_mode) VALUES ("
    ++ u64_to_string p.id.version
    ++ ascii ", "
    ++ quoted (escape_sql_literal p.id.name)
    ++ ascii ", "
    ++ quoted (to_hex p.up_script.checksum)
    ++ ascii ", "
    ++ quoted (to_hex p.down_script.checksum)
    ++ ascii ", "
    ++ quoted (as_str p.up_script.metadata.transaction_mode)
    ++ ascii ", "
    ++ quoted (as_str p.down_script.metadata.transaction_mode)
    ++ ascii ")"

unfoldable pub delete_applied_migration_sql : MigrationTable → ℕ → Text
delete_applied_migration_sql table version =
    ascii "DELETE FROM "
    ++ qualified_name table
    ++ ascii " WHERE version = "
    ++ u64_to_string version

unfoldable pub lock_sql : ℤ → Text
lock_sql id = ascii "SELECT pg_advisory_lock(" ++ i64_to_string id ++ ascii ")"

unfoldable pub unlock_sql : ℤ → Text
unlock_sql id = ascii "SELECT pg_advisory_unlock(" ++ i64_to_string id ++ ascii ")"

abbrev pub bad_row : {A : Type 0} → Text → Result RunError A
bad_row reason = err (of_migration (invalid_applied_migration_row reason))

abbrev pub try : {A B : Type 0} → Result RunError A → (A → Result RunError B) → Result RunError B
try (ok a) k = k a
try (err e) k = err e

-- `parse_required_text`. Where the source ends a reason with the standard library's words for an error,
-- the reason here ends before them.
abbrev pub column_text : Text → Option (Option Text) → Text → Result RunError Text
column_text column none index =
    bad_row (ascii "missing " ++ column ++ ascii " column at index " ++ index)
column_text column (some none) index = bad_row (column ++ ascii " cannot be NULL")
column_text column (some (some cell)) index = elim (from_utf8 cell) [
  | none ↦ bad_row (column ++ ascii " was not valid UTF-8: ")
  | some s ↦ ok s
]

unfoldable pub required_text : List (Option Text) → ℕ → Text → Result RunError Text
required_text row index column = column_text column (get_elem? row index) (u64_to_string index)

-- `parse_row_value::<u64>`.
abbrev pub version_of : Text → Result RunError ℕ
version_of s = elim (parse_u64 s) [
  | none ↦ bad_row (ascii "could not parse version: ")
  | some n ↦ ok n
]

abbrev pub mode_of : List (Option Text) → ℕ → Text → Result RunError MigrationTransactionMode
mode_of row index column =
    try (required_text row index column) (λ s. of_result (parse_directive s column))

-- `epoch` reads seconds since 1970 in floating point, by the standard library; it refuses what is not a
-- finite number from 0 on.
unfoldable pub parse_applied_row :
    (epoch : Text → Result RunError ℕ) → List (Option Text) → Result RunError AppliedMigration
parse_applied_row epoch row =
    let parsed = try (required_text row 0 (ascii "version")) (λ v. try (version_of v) (λ version.
      try (required_text row 1 (ascii "name")) (λ name. try (of_result (new_id version name)) (λ id.
        try (required_text row 2 (ascii "up_checksum")) (λ uc.
          try (of_result (parse_checksum uc)) (λ up_checksum.
            try (required_text row 3 (ascii "down_checksum")) (λ dc.
              try (of_result (parse_checksum dc)) (λ down_checksum.
                try (mode_of row 4 (ascii "up_transaction_mode")) (λ up_mode.
                  try (mode_of row 5 (ascii "down_transaction_mode")) (λ down_mode.
                    try (required_text row 6 (ascii "applied_at")) (λ at.
                      try (epoch at) (λ applied_at. ok (record {
                        id = id;
                        up_checksum = up_checksum;
                        down_checksum = down_checksum;
                        up_transaction_mode = up_mode;
                        down_transaction_mode = down_mode;
                        applied_at = applied_at;
                      }))))))))))))) in
    if length row == 7
    then parsed
    else bad_row (ascii "expected 7 columns, found " ++ u64_to_string (length row))

-- The first error ends `collect`.
unfoldable pub parse_rows :
    (epoch : Text → Result RunError ℕ) → RawRows → Result RunError (List AppliedMigration)
parse_rows epoch [] = ok []
parse_rows epoch (row ∷ rows) =
    try (parse_applied_row epoch row) (λ a. try (parse_rows epoch rows) (λ rest. ok (a ∷ rest)))

abbrev pub first_set :
    (epoch : Text → Result RunError ℕ) → List RawRows → Result RunError (List AppliedMigration)
first_set epoch [] = ok []
first_set epoch (rows ∷ sets) = parse_rows epoch rows

unfoldable pub load_sql : MigrationTable → Text
load_sql table =
    ascii
      "SELECT version::text, name, up_checksum, down_checksum, up_transaction_mode, down_transaction_mode, EXTRACT(EPOCH FROM applied_at)::text FROM "
    ++ qualified_name table
    ++ ascii " ORDER BY version ASC"
