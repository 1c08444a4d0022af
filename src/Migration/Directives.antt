-- ===== src/Migration/Directives.antt =====
-- crates/core/src/migration/model.rs: `MigrationScriptMetadata::parse`, which reads the directives at the
-- top of a script. A text is the list of its UTF-8 bytes.
use babar.Prelude.{
  ℕ, zero, suc, List, [], ◌∷◌, ◌++◌, map, Option, none, some, Bool, true, false, ◌&&◌, ◌||◌, Result,
  ok, err, ◌>>=◌, ok_or, map_ok, length, drop, leb, ◌==◌, if◌then◌else◌,
}
use babar.Rust.{ascii}
use babar.Migration.Errors.{Text, MigrationError, invalid_directive}
use babar.Migration.Filename.{Text-discrete, strip_suffix}
use babar.Migration.Model.{
  MigrationTransactionMode, transactional, non_transactional, MigrationScriptMetadata,
}
use mathlib.Core.Logic.{ite}

-- The characters of the Unicode property White_Space, which take one, two or three bytes.
abbrev space1 : ℕ → Bool
space1 a = leb 9 a && leb a 13 || a == 32

abbrev space2 : ℕ → ℕ → Bool
space2 a b = a == 0xc2 && (b == 0x85 || b == 0xa0)

abbrev space3 : ℕ → ℕ → ℕ → Bool
space3 a b c =
    a == 0xe1 && b == 0x9a && c == 0x80
    || a == 0xe2 && b == 0x80 && (leb 0x80 c && leb c 0x8a || c == 0xa8 || c == 0xa9 || c == 0xaf)
    || a == 0xe2 && b == 0x81 && c == 0x9f
    || a == 0xe3 && b == 0x80 && c == 0x80

-- The length of the white space that a text begins with.
abbrev space_bytes : Text → ℕ
space_bytes [] = 0
space_bytes (a ∷ []) = if space1 a then 1 else 0
space_bytes (a ∷ b ∷ []) = if space1 a then 1 else if space2 a b then 2 else 0
space_bytes (a ∷ b ∷ c ∷ s) =
    if space1 a then 1 else if space2 a b then 2 else if space3 a b c then 3 else 0

-- Each turn takes a byte at least.
unfoldable trim_loop : ℕ → Text → Text
trim_loop zero s = s
trim_loop (suc fuel) s = elim (space_bytes s) [ zero ↦ s | suc n ↦ trim_loop fuel (drop (suc n) s) ]

unfoldable trim_start : Text → Text
unfolding trim_loop
trim_start s = trim_loop (length s) s

abbrev is_blank : Text → Bool
unfolding trim_start
is_blank s = elim (trim_start s) [ [] ↦ true | c ∷ t ↦ false ]

unfoldable trim_end : Text → Text
trim_end [] = []
trim_end (c ∷ s) = let rest = c ∷ trim_end s in if is_blank (c ∷ s) then [] else rest

unfoldable pub trim : Text → Text
unfolding trim_start trim_end
trim s = trim_end (trim_start s)

abbrev cons_line : ℕ → List (Text × Bool) → List (Text × Bool)
cons_line c [] = (c ∷ [], false) ∷ []
cons_line c ((line, ended) ∷ lines) = (c ∷ line, ended) ∷ lines

-- The lines, and whether each is ended by a line feed.
unfoldable split_lines : Text → List (Text × Bool)
split_lines [] = []
split_lines (c ∷ s) =
    let later = split_lines s in if c == b'\n' then ([], true) ∷ later else cons_line c later

abbrev unwrap_or : Text → Option Text → Text
unwrap_or s none = s
unwrap_or s (some t) = t

-- A carriage return in front of the line feed belongs to the end of the line.
abbrev chomp : Text × Bool → Text
chomp (line, true) = unwrap_or line (strip_suffix (b'\r' ∷ []) line)
chomp (line, false) = line

-- `str::lines`.
unfoldable pub lines : Text → List Text
unfolding split_lines
lines s = map chomp (split_lines s)

abbrev strip_prefix : Text → Text → Option Text
strip_prefix [] s = some s
strip_prefix (p ∷ ps) [] = none
strip_prefix (p ∷ ps) (c ∷ s) = if p == c then strip_prefix ps s else none

abbrev cons_key : ℕ → Option (Text × Text) → Option (Text × Text)
cons_key c none = none
cons_key c (some (key, value)) = some (c ∷ key, value)

-- `split_once('=')`.
unfoldable pub split_equals : Text → Option (Text × Text)
split_equals [] = none
split_equals (c ∷ s) =
    let later = cons_key c (split_equals s) in if c == b'=' then some ([], s) else later

unfoldable pub parse_directive : Text → Text → Result MigrationError MigrationTransactionMode
parse_directive value directive =
    ite (Text-discrete value (ascii "transactional")) (ok transactional) (
      ite (Text-discrete value (ascii "none")) (ok non_transactional) (
        ite (Text-discrete value (ascii "non_transactional")) (ok non_transactional) (
          err (invalid_directive directive (ascii "supported values are transactional and none")))))

-- One directive: the key must be `transaction`, and only once.
abbrev set_directive : Text → Bool → Text → Text → Result MigrationError MigrationTransactionMode
set_directive raw_line saw key value =
    ite (Text-discrete key (ascii "transaction"))
      (if saw
        then err (invalid_directive raw_line (ascii "duplicate transaction directive"))
        else parse_directive value raw_line)
      (err (invalid_directive raw_line (ascii "unsupported directive key `" ++ key ++ ascii "`")))

-- The line behind its `--!`.
unfoldable pub read_directive : Text → Bool → Text → Result MigrationError MigrationTransactionMode
read_directive raw_line saw text = do
  directive ←
      ok_or (strip_prefix (ascii "babar:") (trim text))
        (invalid_directive raw_line (ascii "expected `--! babar:<key> = <value>`"))
  (key, value) ←
      ok_or (split_equals directive) (invalid_directive raw_line (ascii "expected `key = value`"))
  set_directive raw_line saw (trim key) (trim value)

-- The loop over the lines, which ends at the first that is neither blank nor a directive.
unfoldable pub parse_lines :
    MigrationTransactionMode → Bool → List Text → Result MigrationError MigrationTransactionMode
parse_lines mode saw [] = ok mode
parse_lines mode saw (raw_line ∷ rest) = elim (trim raw_line) [
  | [] ↦ parse_lines mode saw rest
  | c ∷ t ↦ elim (strip_prefix (ascii "--!") (c ∷ t)) [
    | none ↦ ok mode
    | some text ↦ read_directive raw_line saw text >>= λ m. parse_lines m true rest
  ]
]

-- `MigrationScriptMetadata::parse`.
unfoldable pub parse_metadata : Text → Result MigrationError MigrationScriptMetadata
parse_metadata contents =
    map_ok (λ m. record { transaction_mode = m }) (parse_lines transactional false (lines contents))
