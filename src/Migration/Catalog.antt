-- ===== src/Migration/Catalog.antt =====
-- crates/core/src/migration/plan.rs and source.rs: `MigrationCatalog::from_assets`, which parses the raw
-- files and pairs them by identifier. A `BTreeMap` of builders is their list in the order of its keys.
-- The digest of the sha2 crate is a parameter.
pub mod Sorted
pub mod Origin
pub mod Built
use babar.Prelude.{
  ℕ, List, [], ◌∷◌, ◌++◌, map, Option, none, some, Bool, true, false, ◌&&◌, ◌||◌, Result, ok, err,
  ◌>>=◌, ◌>>◌, ok_or, map_ok, ◌==◌, if◌then◌else◌,
}
use babar.Prelude.Assoc.{lookup, insert}
use babar.Rust.{ascii, from_utf8}
use babar.Migration.Errors.{
  Text, MigrationError, invalid_source_path, conflicting_migration_version,
  duplicate_migration_script, missing_migration_script,
}
use babar.Migration.Checksum.{MigrationChecksum}
use babar.Migration.Filename.{
  MigrationId, MigrationId-discrete, MigrationKind, up, down, suffix, MigrationFilename,
  Text-discrete, leb_id, id_to_string, parse_filename,
}
use babar.Migration.Model.{MigrationScript, MigrationPair, new_pair}
use babar.Migration.Directives.{parse_metadata}
use mathlib.Core.Logic.{ite}
use native.Mathlib.Decide.{ℕ_discrete}

pub record MigrationAsset : Type 0 where
  pub path : Text
  pub contents : Text

-- The components of a path, without the empty ones and those that name the directory they stand in.
abbrev cons_component : ℕ → List Text → List Text
cons_component c [] = (c ∷ []) ∷ []
cons_component c (s ∷ rest) = (c ∷ s) ∷ rest

unfoldable pub split_path : Text → List Text
split_path [] = [] ∷ []
split_path (c ∷ s) =
    let rest = split_path s in if c == b'/' then [] ∷ rest else cons_component c rest

abbrev keep_component : Text → Option Text → Option Text
keep_component [] last = last
keep_component (c ∷ s) last = ite (Text-discrete (c ∷ s) (ascii ".")) last (some (c ∷ s))

-- `Path::file_name` on Unix: the last component, unless it names the parent directory.
unfoldable pub last_component : Option Text → List Text → Option Text
last_component last [] = last
last_component last (s ∷ rest) = last_component (keep_component s last) rest

abbrev not_parent : Option Text → Option Text
not_parent none = none
not_parent (some s) = ite (Text-discrete s (ascii "..")) none (some s)

unfoldable pub path_file_name : Text → Option Text
path_file_name path = not_parent (last_component none (split_path path))

abbrev utf8_name : Option Text → Option Text
utf8_name none = none
utf8_name (some s) = from_utf8 s

pub record PairBuilder : Type 0 where
  pub id : MigrationId
  pub up_slot : Option (MigrationScript × Text)
  pub down_slot : Option (MigrationScript × Text)

abbrev new_builder : MigrationId → PairBuilder
new_builder id = record { id = id; up_slot = none; down_slot = none }

abbrev fill_slot :
    MigrationId
    → MigrationKind
    → Option (MigrationScript × Text)
    → MigrationScript
    → Text
    → Result MigrationError (Option (MigrationScript × Text))
fill_slot id kind none script path = ok (some (script, path))
fill_slot id kind (some (s, existing_path)) script path =
    err (duplicate_migration_script (id_to_string id) (suffix kind) existing_path path)

-- `PairBuilder::insert`, by the direction of the script.
abbrev insert_kind :
    PairBuilder → MigrationScript → Text → MigrationKind → Result MigrationError PairBuilder
insert_kind b script path up =
    map_ok (λ slot. record b { up_slot = slot }) (fill_slot b.id up b.up_slot script path)
insert_kind b script path down =
    map_ok (λ slot. record b { down_slot = slot }) (fill_slot b.id down b.down_slot script path)

unfoldable pub insert_script :
    PairBuilder → MigrationScript → Text → Result MigrationError PairBuilder
insert_script b script path = insert_kind b script path script.file.kind

-- `builders.entry(id).or_insert_with(…).insert(script, path)`.
unfoldable pub update_builder :
    List PairBuilder
    → MigrationId
    → MigrationScript
    → Text
    → Result MigrationError (List PairBuilder)
update_builder [] id script path = map_ok (λ b. b ∷ []) (insert_script (new_builder id) script path)
update_builder (b ∷ bs) id script path =
    let later = map_ok (λ rest. b ∷ rest) (update_builder bs id script path) in
    ite (MigrationId-discrete b.id id) (map_ok (λ x. x ∷ bs) (insert_script b script path)) (
      if leb_id id b.id
      then map_ok (λ x. x ∷ b ∷ bs) (insert_script (new_builder id) script path)
      else later)

-- `versions.entry(version)`.
abbrev claim_version :
    List (ℕ × Text) → MigrationId → Option Text → Result MigrationError (List (ℕ × Text))
claim_version versions id none = ok (insert ℕ_discrete id.version id.name versions)
claim_version versions id (some existing) =
    ite (Text-discrete existing id.name) (ok versions)
      (err (conflicting_migration_version id.version existing id.name))

abbrev slot_script :
    MigrationId
    → MigrationKind
    → Option (MigrationScript × Text)
    → Result MigrationError MigrationScript
slot_script id kind none = err (missing_migration_script (id_to_string id) (suffix kind))
slot_script id kind (some (s, path)) = ok s

unfoldable pub finish : PairBuilder → Result MigrationError MigrationPair
finish b = do u ← slot_script b.id up b.up_slot; d ← slot_script b.id down b.down_slot; new_pair u d

unfoldable pub finish_all : List PairBuilder → Result MigrationError (List MigrationPair)
finish_all [] = ok []
finish_all (b ∷ bs) = do p ← finish b; ps ← finish_all bs; ok (p ∷ ps)

module _ (sha256 : Text → MigrationChecksum) where
  -- `MigrationScript::new`.
  unfoldable pub new_script : MigrationFilename → Text → Result MigrationError MigrationScript
  new_script file contents = do
    metadata ← parse_metadata contents
    ok (record {
      file = file;
      metadata = metadata;
      contents = contents;
      checksum = sha256 contents;
    })

  -- `MigrationAsset::parse`.
  unfoldable pub parse_asset : MigrationAsset → Result MigrationError MigrationScript
  parse_asset a = do
    name ←
        ok_or (utf8_name (path_file_name a.path))
          (invalid_source_path a.path (ascii "path must end in a UTF-8 file name"))
    file ← parse_filename name
    new_script file a.contents

  -- One turn of the loop.
  unfoldable pub add_asset :
      List (ℕ × Text) × List PairBuilder
      → MigrationAsset
      → Result MigrationError (List (ℕ × Text) × List PairBuilder)
  add_asset (versions, builders) a = do
    script ← parse_asset a
    versions' ←
        claim_version versions script.file.id (lookup ℕ_discrete script.file.id.version versions)
    builders' ← update_builder builders script.file.id script a.path
    ok (versions', builders')

  unfoldable pub add_assets :
      List (ℕ × Text) × List PairBuilder
      → List MigrationAsset
      → Result MigrationError (List (ℕ × Text) × List PairBuilder)
  add_assets state [] = ok state
  add_assets state (a ∷ assets) = do state' ← add_asset state a; add_assets state' assets

  unfoldable pub from_assets : List MigrationAsset → Result MigrationError (List MigrationPair)
  from_assets assets = do (versions, builders) ← add_assets ([], []) assets; finish_all builders
