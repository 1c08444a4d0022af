-- ===== src/Migration/Filename.antt =====
-- crates/core/src/migration/filename.rs: `<version>__<name>.<up|down>.sql`. The version is a `u64`; a
-- text is the list of its bytes.
pub mod Grammar
pub mod Accepted
mod Tests
use babar.Prelude.{
  ℕ, ◌+◌, ◌≡◌, ◌≢◌, refl, List, [], ◌∷◌, ◌++◌, Option, none, some, Bool, true, false, ◌&&◌, ◌||◌,
  not, Result, ok, err, ◌>>=◌, ok_or, all, leb, ltb, ◌==◌, if◌then◌else◌, arith, All, length,
  length-append, ap,
}
use babar.Rust.{IsU64, is_digit, parse_u64, u64_to_string, parse_u64-u64_to_string, ascii}
use babar.Migration.Errors.{Text, MigrationError, invalid_file_name, invalid_version, invalid_name}
use mathlib.Core.Logic.{ite}
use native.Mathlib.Decide.{ℕ_discrete}

pub record MigrationId : Type 0 where
  pub version : ℕ
  pub name : Text

pub data MigrationKind : Type 0 where
  up down : MigrationKind

pub record MigrationFilename : Type 0 where
  pub id : MigrationId
  pub kind : MigrationKind

pub Text-discrete : Discrete Text
Text-discrete = hlevel ℕ_discrete

pub MigrationId-discrete : Discrete MigrationId
MigrationId-discrete = hlevel ℕ_discrete

-- The order of `String`, by bytes, and the derived order of `MigrationId`: `a <= b`.
unfoldable pub leb_text : Text → Text → Bool
leb_text [] t = true
leb_text (c ∷ s) [] = false
leb_text (c ∷ s) (d ∷ t) = ltb c d || c == d && leb_text s t

unfoldable pub leb_id : MigrationId → MigrationId → Bool
leb_id a b = ltb a.version b.version || a.version == b.version && leb_text a.name b.name

abbrev pub cons_front : ℕ → Option Text → Option Text
cons_front c none = none
cons_front c (some s) = some (c ∷ s)

-- `str::strip_suffix`.
unfoldable pub strip_suffix : Text → Text → Option Text
strip_suffix suffix [] = ite (Text-discrete [] suffix) (some []) none
strip_suffix suffix (c ∷ s) =
    ite (Text-discrete (c ∷ s) suffix) (some []) (cons_front c (strip_suffix suffix s))

abbrev pub cons_first : ℕ → Option (Text × Text) → Option (Text × Text)
cons_first c none = none
cons_first c (some (a, b)) = some (c ∷ a, b)

-- `split_once("__")`, at the first place.
unfoldable pub split_underscores : Text → Option (Text × Text)
split_underscores [] = none
split_underscores (c ∷ []) = none
split_underscores (c ∷ d ∷ s) =
    let later = cons_first c (split_underscores (d ∷ s)) in
    if c == b'_' && d == b'_' then some ([], s) else later

abbrev pub is_some {ℓ} : {A : Type ℓ} → Option A → Bool
is_some none = false
is_some (some a) = true

abbrev pub starts_with_underscore : Text → Bool
starts_with_underscore [] = false
starts_with_underscore (c ∷ s) = c == b'_'

abbrev pub is_empty : Text → Bool
is_empty [] = true
is_empty (c ∷ s) = false

abbrev pub is_name_byte : ℕ → Bool
is_name_byte c = leb b'a' c && leb c b'z' || is_digit c || c == b'_'

-- The condition of `validate_name`, which `contains("__")` shares with `split_once`.
unfoldable pub is_bad_name : Text → Bool
is_bad_name name =
    is_empty name
    || starts_with_underscore name
    || is_some (strip_suffix (b'_' ∷ []) name)
    || is_some (split_underscores name)
    || not (all is_name_byte name)

unfoldable pub new_id : ℕ → Text → Result MigrationError MigrationId
new_id version name =
    if is_bad_name name
    then err (invalid_name name)
    else ok (record { version = version; name = name })

unfoldable pub id_to_string : MigrationId → Text
id_to_string id = u64_to_string id.version ++ (b'_' ∷ b'_' ∷ id.name)

abbrev pub suffix : MigrationKind → Text
suffix up = ascii "up"
suffix down = ascii "down"

abbrev dotted_suffix : MigrationKind → Text
dotted_suffix k = b'.' ∷ suffix k ++ ascii ".sql"

-- `MigrationFilename::file_name`.
unfoldable pub file_name : MigrationFilename → Text
file_name f = id_to_string f.id ++ (b'.' ∷ suffix f.kind ++ ascii ".sql")

-- The direction, by the end of the stem.
unfoldable pub split_kind : Text → Option (Text × MigrationKind)
split_kind stem = elim (strip_suffix (ascii ".up") stem) [
  | some base ↦ some (base, up)
  | none ↦ elim (strip_suffix (ascii ".down") stem) [ some base ↦ some (base, down) | none ↦ none ]
]

-- `MigrationFilename::parse`.
unfoldable pub parse_filename : Text → Result MigrationError MigrationFilename
parse_filename text = do
  stem ← ok_or (strip_suffix (ascii ".sql") text) (invalid_file_name text)
  (base, kind) ← ok_or (split_kind stem) (invalid_file_name text)
  (version, name) ← ok_or (split_underscores base) (invalid_file_name text)
  n ← ok_or (parse_u64 version) (invalid_version version)
  id ← new_id n name
  ok (record { id = id; kind = kind })
