-- ===== src/Types.antt =====
-- crates/core/src/types.rs: the metadata of a PostgreSQL type.
pub mod Known
use babar.Prelude.{ℕ, List, Option, none, some, Bool, not, ◌==◌}
use native.Mathlib.Decide.{ℕ_discrete}

pub record PgType : Type 0 where
  pub oid : ℕ
  pub name : List ℕ
  pub extension : Option (List ℕ)

-- `Type::fixed`, `Type::extension` and `Type::unresolved`.
abbrev pub fixed_type : ℕ → List ℕ → PgType
fixed_type oid name = record { oid = oid; name = name; extension = none }

abbrev pub extension_type : List ℕ → List ℕ → PgType
extension_type name extension = record { oid = 0; name = name; extension = some extension }

abbrev pub unresolved_type : List ℕ → PgType
unresolved_type name = record { oid = 0; name = name; extension = none }

abbrev pub is_resolved : PgType → Bool
is_resolved t = not (t.oid == 0)

pub PgType-discrete : Discrete PgType
PgType-discrete = hlevel ℕ_discrete
