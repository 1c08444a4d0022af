-- ===== src/Session/Cache.antt =====
-- crates/core/src/session/cache.rs and type_registry.rs: the prepared statements of one session, each
-- with the number of its live handles, and the types that the session has resolved.
pub mod Handles
pub mod Names
pub mod Lifetime
mod Tests
use babar.Prelude.{
  ℕ, suc, ◌+◌, ◌-◌, ◌%◌, List, [], ◌∷◌, ◌++◌, Option, none, some, Bool, true, false, ltb,
  if◌then◌else◌,
}
use babar.Prelude.Assoc.{lookup, insert, remove}
use babar.Rust.{ascii, u64_to_string}
use babar.Types.{PgType, PgType-discrete}
use babar.Protocol.Backend.{RowField}
use native.Mathlib.Decide.{ℕ_discrete}

pub record CacheKey : Type 0 where
  pub sql_hash : ℕ
  pub param_types : List PgType

pub CacheKey-discrete : Discrete CacheKey
CacheKey-discrete = hlevel (ℕ_discrete, PgType-discrete)

-- `hash` is the standard library's default hasher on a text, which it leaves unspecified.
abbrev pub new_key : (hash : List ℕ → ℕ) → List ℕ → List PgType → CacheKey
new_key hash sql param_types = record { sql_hash = hash sql; param_types = param_types }

pub record CachedStatement : Type 0 where
  pub name : List ℕ
  pub param_oids : List ℕ
  pub row_fields : List RowField

pub record CacheEntry : Type 0 where
  pub stmt : CachedStatement
  pub handles : ℕ

pub record StatementCache : Type 0 where
  pub stmts : List (CacheKey × CacheEntry)
  pub counter : ℕ
  pub retain_on_zero_handles : Bool

abbrev pub new_cache : Bool → StatementCache
new_cache retain = record { stmts = []; counter = 0; retain_on_zero_handles = retain }

abbrev pub entry : StatementCache → CacheKey → Option CacheEntry
entry c key = lookup CacheKey-discrete key c.stmts

abbrev put_entry : StatementCache → CacheKey → CacheEntry → StatementCache
put_entry c key e = record c { stmts = insert CacheKey-discrete key e c.stmts }

abbrev checkout_found :
    StatementCache → CacheKey → Option CacheEntry → StatementCache × Option CachedStatement
checkout_found c key none = (c, none)
checkout_found c key (some e) =
    (put_entry c key (record e { handles = e.handles + 1 }), some e.stmt)

unfoldable pub checkout : StatementCache → CacheKey → StatementCache × Option CachedStatement
checkout c key = checkout_found c key (entry c key)

unfoldable pub insert_statement : StatementCache → CacheKey → CachedStatement → StatementCache
insert_statement c key stmt = put_entry c key (record { stmt = stmt; handles = 1 })

abbrev release_found :
    StatementCache → CacheKey → Option CacheEntry → StatementCache × Option CachedStatement
release_found c key none = (c, none)
release_found c key (some e) =
    if ltb 1 e.handles
    then (put_entry c key (record e { handles = e.handles - 1 }), none)
    else if c.retain_on_zero_handles
    then (put_entry c key (record e { handles = 0 }), none)
    else (record c { stmts = remove CacheKey-discrete key c.stmts }, some e.stmt)

unfoldable pub release_handle : StatementCache → CacheKey → StatementCache × Option CachedStatement
release_handle c key = release_found c key (entry c key)

-- `self.counter += 1` on a `u64`.
unfoldable pub next_name : StatementCache → StatementCache × List ℕ
next_name c =
    let n = (c.counter + 1) % 0x1_0000_0000_0000_0000 in
    (record c { counter = n }, ascii "_babar_" ++ u64_to_string n)

-- `TypeRegistry`.
abbrev pub TypeRegistry : Type 0
TypeRegistry = List (PgType × ℕ)

abbrev pub get_type : TypeRegistry → PgType → Option ℕ
get_type r ty = lookup PgType-discrete ty r

abbrev pub insert_type : TypeRegistry → PgType → ℕ → TypeRegistry
insert_type r ty oid = insert PgType-discrete ty oid r
