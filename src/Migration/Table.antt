-- ===== src/Migration/Table.antt =====
-- crates/core/src/migration/table.rs and the literals of runner.rs: names and literals within SQL.
use babar.Prelude.{
  ℕ, ◌≡◌, ◌≢◌, refl, [], ◌∷◌, ◌++◌, Option, none, some, ◌==◌, if◌then◌else◌, arith, ap, ◌∙◌,
  append_assoc, Bool, true, false, ◌||◌, Result, ok, err, ◌>>◌,
}
use babar.Rust.{ascii}
use babar.Migration.Errors.{Text, MigrationError, invalid_table}
use babar.Migration.Directives.{trim}
use native.Mathlib.Decide.{ℕ_discrete}

pub record MigrationTable : Type 0 where
  pub schema : Text
  pub name : Text

-- `value.replace(q, qq)`.
unfoldable pub double : ℕ → Text → Text
double q [] = []
double q (c ∷ s) = let rest = double q s in if c == q then c ∷ c ∷ rest else c ∷ rest

abbrev pub quote_ident : Text → Text
quote_ident value = b'"' ∷ double b'"' value ++ (b'"' ∷ [])

abbrev pub escape_sql_literal : Text → Text
escape_sql_literal value = double b'\'' value

unfoldable pub qualified_name : MigrationTable → Text
qualified_name t = quote_ident t.schema ++ (b'.' ∷ quote_ident t.name)

unfoldable pub create_if_missing_sql : MigrationTable → Text
create_if_missing_sql t =
    ascii "CREATE TABLE IF NOT EXISTS "
    ++ qualified_name t
    ++ ascii
        " (version bigint PRIMARY KEY, name text NOT NULL, up_checksum text NOT NULL, down_checksum text NOT NULL, "
    ++ ascii
        "up_transaction_mode text NOT NULL CHECK (up_transaction_mode IN ('transactional', 'non_transactional')), "
    ++ ascii
        "down_transaction_mode text NOT NULL CHECK (down_transaction_mode IN ('transactional', 'non_transactional')), "
    ++ ascii "applied_at timestamptz NOT NULL DEFAULT CURRENT_TIMESTAMP)"

abbrev cons_token : ℕ → Option (Text × Text) → Option (Text × Text)
cons_token c none = none
cons_token c (some (s, rest)) = some (c ∷ s, rest)

-- How PostgreSQL reads on within quotes: a doubled quote is one, a single one ends the token.
unfoldable pub read_quoted : ℕ → Text → Option (Text × Text)
read_quoted q [] = none
read_quoted q (c ∷ []) = if c == q then some ([], []) else none
read_quoted q (c ∷ d ∷ s) =
    let doubled = cons_token c (read_quoted q s) in
    let plain = cons_token c (read_quoted q (d ∷ s)) in
    if c == q then (if d == q then doubled else some ([], d ∷ s)) else plain

-- No quote follows.
abbrev pub IsUnquoted : ℕ → Text → Type 0
IsUnquoted q [] = Unit
IsUnquoted q (c ∷ s) = c ≢ q

end_of_quoted :
    (q : ℕ) (rest : Text) → IsUnquoted q rest → read_quoted q (q ∷ rest) ≡ some ([], rest)
unfolding read_quoted
end_of_quoted q [] h = ground arith
end_of_quoted q (c ∷ rest) h = ground arith

plain_in_quoted :
    (q c : ℕ) (s : Text) → c ≢ q → s ≢ [] → read_quoted q (c ∷ s) ≡ cons_token c (read_quoted q s)
unfolding read_quoted
plain_in_quoted q c [] n h = absurd (h refl)
plain_in_quoted q c (d ∷ s) n h = ground arith

doubled_in_quoted :
    (q c : ℕ) (s : Text) → c ≡ q → read_quoted q (c ∷ c ∷ s) ≡ cons_token c (read_quoted q s)
unfolding read_quoted
doubled_in_quoted q c s e = ground arith

double_quote : (q c : ℕ) (s : Text) → c ≡ q → double q (c ∷ s) ≡ c ∷ c ∷ double q s
unfolding double
double_quote q c s e = ground arith

double_plain : (q c : ℕ) (s : Text) → c ≢ q → double q (c ∷ s) ≡ c ∷ double q s
unfolding double
double_plain q c s n = ground arith

double-nonempty : (q : ℕ) (s rest : Text) → double q s ++ (q ∷ rest) ≢ []
unfolding double
double-nonempty q [] rest e = cc
double-nonempty q (c ∷ s) rest e = ground arith

-- A text with its quotes doubled reads back, whatever it contains: PostgreSQL takes exactly it as the
-- token and goes on behind the closing quote, if no other quote follows.
pub read_quoted-double :
    (q : ℕ) (s rest : Text)
    → IsUnquoted q rest
    → read_quoted q (double q s ++ (q ∷ rest)) ≡ some (s, rest)
unfolding double
read_quoted-double q [] rest h = end_of_quoted q rest h
read_quoted-double q (c ∷ s) rest h = elim (ℕ_discrete c q) [
  | yes same ↦
      ap (λ t. read_quoted q (t ++ (q ∷ rest))) (double_quote q c s same)
      ∙ doubled_in_quoted q c (double q s ++ (q ∷ rest)) same
      ∙ ap (cons_token c) (read_quoted-double q s rest h)
  | no n ↦
      ap (λ t. read_quoted q (t ++ (q ∷ rest))) (double_plain q c s n)
      ∙ plain_in_quoted q c (double q s ++ (q ∷ rest)) n (double-nonempty q s rest)
      ∙ ap (cons_token c) (read_quoted-double q s rest h)
]

-- How PostgreSQL reads a quoted identifier, and two of them with a dot between.
abbrev read_ident : Text → Option (Text × Text)
read_ident [] = none
read_ident (c ∷ s) = let inner = read_quoted b'"' s in if c == b'"' then inner else none

abbrev name_after : Text → Option (Text × Text) → Option (MigrationTable × Text)
name_after schema none = none
name_after schema (some (name, rest)) = some (record { schema = schema; name = name }, rest)

abbrev dot_after : Option (Text × Text) → Option (MigrationTable × Text)
dot_after none = none
dot_after (some (schema, [])) = none
dot_after (some (schema, c ∷ s)) =
    let found = name_after schema (read_ident s) in if c == b'.' then found else none

abbrev pub read_qualified : Text → Option (MigrationTable × Text)
read_qualified s = dot_after (read_ident s)

read_ident-quote_ident :
    (value rest : Text)
    → IsUnquoted b'"' rest
    → read_ident (quote_ident value ++ rest) ≡ some (value, rest)
read_ident-quote_ident value rest h =
    ap (read_quoted b'"') (append_assoc (double b'"' value) (b'"' ∷ []) rest)
    ∙ read_quoted-double b'"' value rest h

-- PostgreSQL reads the text of the state table's name as the schema and the table that it was made of,
-- whatever characters they contain, and goes on with what follows, if that does not begin with a quote.
pub read_qualified-qualified_name :
    (t : MigrationTable) (rest : Text)
    → IsUnquoted b'"' rest
    → read_qualified (qualified_name t ++ rest) ≡ some (t, rest)
unfolding qualified_name
read_qualified-qualified_name t rest h =
    ap read_qualified (append_assoc (quote_ident t.schema) (b'.' ∷ quote_ident t.name) rest)
    ∙ ap dot_after (
        read_ident-quote_ident t.schema (b'.' ∷ quote_ident t.name ++ rest)
          (λ e. absurd (omega (arith, e))))
    ∙ ap (name_after t.schema) (read_ident-quote_ident t.name rest h)

-- `validate_part`, for the two parts: a name is not blank and contains no NUL.
abbrev has_nul : Text → Bool
has_nul [] = false
has_nul (c ∷ s) = c == 0 || has_nul s

abbrev is_blank_text : Text → Bool
is_blank_text s = elim (trim s) [ [] ↦ true | c ∷ t ↦ false ]

unfoldable pub validate_part : MigrationTable → Text → Text → Result MigrationError (Unit {0})
validate_part t value part =
    if is_blank_text value || has_nul value
    then err (
        invalid_table (t.schema ++ ascii "." ++ t.name)
          (part ++ ascii " must be non-empty and cannot contain NUL"))
    else ok tt

unfoldable pub new_table : Text → Text → Result MigrationError MigrationTable
new_table schema name = do
  validate_part (record { schema = schema; name = name }) schema (ascii "schema")
  validate_part (record { schema = schema; name = name }) name (ascii "table")
  ok (record { schema = schema; name = name })
