-- ===== src/Session/DynamicTypes/Growth.antt =====
-- crates/core/src/session/mod.rs: what may happen to the registry of types.
use babar.Prelude.{
  ℕ, ◌≡◌, refl, List, [], ◌∷◌, ◌++◌, append_assoc, append-nil, none, some, false, inl, inr, ◌⊎◌,
  Result, ok, if◌then◌else◌, ap, sym, ◌∙◌, arith, All, Option-cases,
}
use babar.Types.{PgType, is_resolved}
use babar.Error.{Error}
use babar.Session.Cache.{TypeRegistry, get_type}
use babar.Session.DynamicTypes.{Text, RowSets, Resolver, type_sql, resolve_dynamic_type}

abbrev pub queries : List PgType → List Text
queries [] = []
queries (ty ∷ types) = type_sql ty ty.extension ∷ queries types

queries-append : (xs ys : List PgType) → queries (xs ++ ys) ≡ queries xs ++ queries ys
queries-append [] ys = refl
queries-append (x ∷ xs) ys = ap (λ z. type_sql x x.extension ∷ z) (queries-append xs ys)

All-append : (P : PgType → Type 0) (xs ys : List PgType) → All P xs → All P ys → All P (xs ++ ys)
All-append P [] ys h k = k
All-append P (x ∷ xs) ys (h, hs) k = (h, All-append P xs ys hs k)

All-map :
    (P Q : PgType → Type 0) (xs : List PgType) → ((x : PgType) → P x → Q x) → All P xs → All Q xs
All-map P Q [] f h = tt
All-map P Q (x ∷ xs) f (h, hs) = (f x h, All-map P Q xs f hs)

-- The OID of a type, as it is declared or as a registry has it.
abbrev pub IsOid : TypeRegistry → PgType → ℕ → Type 0
IsOid r ty oid = (if is_resolved ty then some ty.oid else get_type r ty) ≡ some oid

abbrev pub AreOids : TypeRegistry → List PgType → List ℕ → Type 0
AreOids r [] [] = Unit
AreOids r [] (oid ∷ oids) = ⊥
AreOids r (ty ∷ types) [] = ⊥
AreOids r (ty ∷ types) (oid ∷ oids) = IsOid r ty oid × AreOids r types oids

abbrev pub IsUnknown : TypeRegistry → PgType → Type 0
IsUnknown r ty = (is_resolved ty ≡ false) × (get_type r ty ≡ none)

module _ (query : List Text → Result Error RowSets) (debug : Text → Text) where
  -- The registry keeps what it has; what is new in it is what the server answered to a query for that type;
  -- and only types that it did not have are asked for.
  pub record Grows (y z : Resolver) : Type 0 where
    pub keeps :
        (ty : PgType) (oid : ℕ)
        → get_type y.registry ty ≡ some oid
        → get_type z.registry ty ≡ some oid
    pub learns :
        (ty : PgType) (oid : ℕ)
        → get_type z.registry ty ≡ some oid
        → (get_type y.registry ty ≡ some oid)
          ⊎ ((asked : List Text) × ((resolve_dynamic_type query debug ty asked).1 ≡ ok oid))
    pub asks :
        (new : List PgType) × (z.asked ≡ y.asked ++ queries new) × All (IsUnknown y.registry) new

  pub Grows-refl : (y : Resolver) → Grows y y
  Grows-refl y = record {
    keeps = λ ty oid h. h;
    learns = λ ty oid h. inl h;
    asks = ([], sym (append-nil y.asked), tt);
  }

  still_unknown :
      (y z : Resolver)
      → Grows y z
      → (ty : PgType) → IsUnknown z.registry ty
      → IsUnknown y.registry ty
  still_unknown y z g ty (u, h) = (
    u,
    elim (Option-cases (get_type y.registry ty)) [
      | inl e ↦ e
      | inr (oid, e) ↦ ground (arith, h, g.keeps ty oid e)
    ],
  )

  pub Grows-trans : (y z w : Resolver) → Grows y z → Grows z w → Grows y w
  Grows-trans y z w g k =
      let (xs, a, u) = g.asks in
      let (ys, b, v) = k.asks in
      record {
        keeps = λ ty oid h. k.keeps ty oid (g.keeps ty oid h);
        learns = λ ty oid h. elim (k.learns ty oid h) [ inl e ↦ g.learns ty oid e | inr e ↦ inr e ];
        asks = (
          xs ++ ys,
          b
              ∙ ap (λ s. s ++ queries ys) a
              ∙ append_assoc y.asked (queries xs) (queries ys)
              ∙ ap (λ s. y.asked ++ s) (sym (queries-append xs ys)),
          All-append (IsUnknown y.registry) xs ys u
              (All-map (IsUnknown z.registry) (IsUnknown y.registry) ys (still_unknown y z g) v),
        );
      }
