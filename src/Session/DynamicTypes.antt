-- ===== src/Session/DynamicTypes.antt =====
-- crates/core/src/session/mod.rs: `resolve_type_oids` and `resolve_dynamic_type`, the OIDs of the types
-- that a query declares.
pub mod Growth
pub mod Registry
mod Tests
use babar.Prelude.{
  ℕ, List, [], ◌∷◌, ◌++◌, Option, none, some, Result, ok, err, ◌>>=◌, ok_or, ltb, ◌==◌,
  if◌then◌else◌,
}
use babar.Rust.{ascii, from_utf8, parse_u64}
use babar.Types.{PgType, is_resolved}
use babar.Error.{Error, codec}
use babar.Codec.Interface.{Cell}
use babar.Session.Cache.{TypeRegistry, get_type, insert_type}

abbrev pub Text : Type 0
Text = List ℕ

-- `simple_query_raw`: the rows of each statement.
abbrev pub RowSets : Type 0
RowSets = List (List (List Cell))

abbrev pub escape_literal : Text → Text
escape_literal [] = []
escape_literal (b ∷ s) =
    let rest = escape_literal s in if b == b'\'' then b'\'' ∷ b'\'' ∷ rest else b ∷ rest

abbrev pub type_sql : PgType → Option Text → Text
type_sql ty (some extension) =
    ascii
      "SELECT t.oid::text FROM pg_type AS t JOIN pg_namespace AS n ON n.oid = t.typnamespace JOIN pg_extension AS e ON e.extnamespace = n.oid WHERE e.extname = '"
    ++ escape_literal extension
    ++ ascii "' AND t.typname = '"
    ++ escape_literal ty.name
    ++ ascii "'"
type_sql ty none = ascii "SELECT to_regtype('" ++ escape_literal ty.name ++ ascii "')::oid::text"

abbrev pub first_cell : RowSets → Option Text
first_cell (((some raw ∷ cells) ∷ rows) ∷ sets) = some raw
first_cell sets = none

abbrev from_extension : Option Text → Text
from_extension (some extension) = ascii " from extension \"" ++ extension ++ ascii "\""
from_extension none = []

abbrev unresolved_error : PgType → Error
unresolved_error ty = codec (
    ascii "could not resolve PostgreSQL type \""
    ++ ty.name
    ++ ascii "\""
    ++ from_extension ty.extension)

abbrev returned : PgType → Text → Error
returned ty what = codec (ascii "type resolution for \"" ++ ty.name ++ ascii "\" returned " ++ what)

-- `parse::<Oid>`: a `u32`.
abbrev fits_oid : Option ℕ → Option ℕ
fits_oid none = none
fits_oid (some n) = if ltb n 0x1_0000_0000 then some n else none

abbrev pub parse_oid : Text → Option ℕ
parse_oid text = fits_oid (parse_u64 text)

-- The registry of a session, and the queries that it has asked.
pub record Resolver : Type 0 where
  pub registry : TypeRegistry
  pub asked : List Text

-- `query` is what the server answers to the last of the queries that were asked, the answers to which may
-- change in time; `debug` is the format `{:?}` of a text.
module _ (query : List Text → Result Error RowSets) (debug : Text → Text) where
  abbrev pub read_oid : PgType → Result Error RowSets → Result Error ℕ
  read_oid ty answer = do
    rows ← answer
    raw ← ok_or (first_cell rows) (unresolved_error ty)
    text ← ok_or (from_utf8 raw) (returned ty (ascii "non-UTF-8"))
    ok_or (parse_oid text) (returned ty (ascii "invalid OID " ++ debug text))

  -- The queries with this one, and what comes of it.
  unfoldable pub resolve_dynamic_type : PgType → List Text → List Text × Result Error ℕ
  resolve_dynamic_type ty asked =
      let now = asked ++ (type_sql ty ty.extension ∷ []) in (now, read_oid ty (query now))

  abbrev pub remembered :
      TypeRegistry → PgType → List Text × Result Error ℕ → Resolver × Result Error ℕ
  remembered r ty (asked, ok oid) =
      (record { registry = insert_type r ty oid; asked = asked }, ok oid)
  remembered r ty (asked, err e) = (record { registry = r; asked = asked }, err e)

  abbrev pub looked_up : Resolver → PgType → Option ℕ → Resolver × Result Error ℕ
  looked_up y ty (some oid) = (y, ok oid)
  looked_up y ty none = remembered y.registry ty (resolve_dynamic_type ty y.asked)

  -- One round of the loop.
  unfoldable pub resolve_type : Resolver → PgType → Resolver × Result Error ℕ
  resolve_type y ty =
      if is_resolved ty then (y, ok ty.oid) else looked_up y ty (get_type y.registry ty)

  abbrev pub push_oid : ℕ → Resolver × Result Error (List ℕ) → Resolver × Result Error (List ℕ)
  push_oid oid (y, ok oids) = (y, ok (oid ∷ oids))
  push_oid oid (y, err e) = (y, err e)

  abbrev pub next_types :
      Resolver × Result Error ℕ
      → (Resolver → Resolver × Result Error (List ℕ))
      → Resolver × Result Error (List ℕ)
  next_types (y, ok oid) rest = push_oid oid (rest y)
  next_types (y, err e) rest = (y, err e)

  unfoldable pub resolve_type_oids : Resolver → List PgType → Resolver × Result Error (List ℕ)
  resolve_type_oids y [] = (y, ok [])
  resolve_type_oids y (ty ∷ declared) =
      next_types (resolve_type y ty) (λ z. resolve_type_oids z declared)
