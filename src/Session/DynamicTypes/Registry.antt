-- ===== src/Session/DynamicTypes/Registry.antt =====
-- crates/core/src/session/mod.rs: resolving types through the registry.
use babar.Prelude.{ℕ, ◌≡◌, List, Result, ok}
use babar.Types.{PgType}
use babar.Error.{Error}
use babar.Session.DynamicTypes.Growth.{IsOid, AreOids, Grows}
use babar.Session.DynamicTypes.{Text, RowSets, Resolver}

module _ (query : List Text → Result Error RowSets) (debug : Text → Text) where
  -- What becomes of one type, and of several.
  abbrev Resolves : Resolver → PgType → Resolver × Result Error ℕ → Type 0
  Resolves y ty (z, r) = Grows query debug y z × ((oid : ℕ) → r ≡ ok oid → IsOid z.registry ty oid)

  abbrev AllResolve : Resolver → List PgType → Resolver × Result Error (List ℕ) → Type 0
  AllResolve y types (z, r) =
      Grows query debug y z × ((oids : List ℕ) → r ≡ ok oids → AreOids z.registry types oids)
