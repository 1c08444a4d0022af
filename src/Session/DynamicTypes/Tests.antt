-- ===== src/Session/DynamicTypes/Tests.antt =====
-- crates/core/src/session/mod.rs: resolving types against a server that knows one type.
use babar.Prelude.{ℕ, suc, ◌==◌, ◌≡◌, refl, List, [], ◌∷◌, none, some, Result, ok, if◌then◌else◌}
use babar.Rust.{ascii, equals, from_utf8, is_utf8, parse_u64}
use babar.Types.{PgType, fixed_type, unresolved_type, extension_type}
use babar.Error.{Error}
use babar.Session.DynamicTypes.{
  Text, RowSets, Resolver, resolve_dynamic_type, type_sql, escape_literal, parse_oid,
}

abbrev mood : PgType
mood = unresolved_type (ascii "mood")

abbrev geometry : PgType
geometry = extension_type (ascii "geometry") (ascii "postgis")

abbrev no_debug : Text → Text
no_debug text = text

-- The server knows `mood`, and gives it another OID when it is asked again; it knows nothing else.
abbrev last_query : List Text → Text
last_query [] = []
last_query (sql ∷ []) = sql
last_query (sql ∷ next ∷ asked) = last_query (next ∷ asked)

abbrev count_queries : List Text → ℕ
count_queries [] = 0
count_queries (sql ∷ asked) = suc (count_queries asked)

abbrev server : List Text → Result Error RowSets
server asked =
    if equals (last_query asked) (type_sql mood none)
    then ok
        (((some (ascii (if count_queries asked == 1 then "16403" else "16999")) ∷ []) ∷ []) ∷ [])
    else ok ([] ∷ [])

abbrev fresh : Resolver
fresh = record { registry = []; asked = [] }

abbrev declared : List PgType
declared = fixed_type 23 (ascii "int4") ∷ mood ∷ mood ∷ []

resolve_mood : (resolve_dynamic_type server no_debug mood (ascii "SELECT 1" ∷ [])).1 ≡ ok 16999
unfolding resolve_dynamic_type from_utf8 is_utf8 parse_u64
resolve_mood = refl

escape_quotes : escape_literal (ascii "o'clock") ≡ ascii "o''clock"
escape_quotes = refl

parse_oid_too_large : parse_oid (ascii "4294967296") ≡ none
unfolding parse_u64
parse_oid_too_large = refl
