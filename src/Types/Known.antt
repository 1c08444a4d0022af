-- ===== src/Types/Known.antt =====
-- crates/core/src/types.rs: the built-in types, by OID.
use babar.Prelude.{
  ℕ, ◌≡◌, refl, List, [], ◌∷◌, Option, none, some, ◌==◌, if◌then◌else◌, Bool-cases, ==_iff, inl,
  inr,
}
use babar.Rust.{ascii}
use babar.Types.{PgType, fixed_type}

-- The arms of `known_type_for_oid`.
abbrev known_types : List PgType
known_types =
    fixed_type 16 (ascii "bool")
    ∷ fixed_type 17 (ascii "bytea")
    ∷ fixed_type 1042 (ascii "bpchar")
    ∷ fixed_type 1043 (ascii "varchar")
    ∷ fixed_type 25 (ascii "text")
    ∷ fixed_type 21 (ascii "int2")
    ∷ fixed_type 23 (ascii "int4")
    ∷ fixed_type 20 (ascii "int8")
    ∷ fixed_type 700 (ascii "float4")
    ∷ fixed_type 701 (ascii "float8")
    ∷ fixed_type 2950 (ascii "uuid")
    ∷ fixed_type 1082 (ascii "date")
    ∷ fixed_type 1083 (ascii "time")
    ∷ fixed_type 1114 (ascii "timestamp")
    ∷ fixed_type 1184 (ascii "timestamptz")
    ∷ fixed_type 114 (ascii "json")
    ∷ fixed_type 3802 (ascii "jsonb")
    ∷ fixed_type 1700 (ascii "numeric")
    ∷ fixed_type 869 (ascii "inet")
    ∷ fixed_type 650 (ascii "cidr")
    ∷ fixed_type 1186 (ascii "interval")
    ∷ fixed_type 829 (ascii "macaddr")
    ∷ fixed_type 774 (ascii "macaddr8")
    ∷ fixed_type 1560 (ascii "bit")
    ∷ fixed_type 1562 (ascii "varbit")
    ∷ fixed_type 3614 (ascii "tsvector")
    ∷ fixed_type 3615 (ascii "tsquery")
    ∷ fixed_type 1000 (ascii "_bool")
    ∷ fixed_type 1001 (ascii "_bytea")
    ∷ fixed_type 1005 (ascii "_int2")
    ∷ fixed_type 1007 (ascii "_int4")
    ∷ fixed_type 1009 (ascii "_text")
    ∷ fixed_type 1016 (ascii "_int8")
    ∷ fixed_type 1021 (ascii "_float4")
    ∷ fixed_type 1022 (ascii "_float8")
    ∷ fixed_type 1015 (ascii "_varchar")
    ∷ fixed_type 1014 (ascii "_bpchar")
    ∷ fixed_type 1041 (ascii "_inet")
    ∷ fixed_type 651 (ascii "_cidr")
    ∷ fixed_type 1182 (ascii "_date")
    ∷ fixed_type 1183 (ascii "_time")
    ∷ fixed_type 1115 (ascii "_timestamp")
    ∷ fixed_type 1185 (ascii "_timestamptz")
    ∷ fixed_type 1187 (ascii "_interval")
    ∷ fixed_type 1231 (ascii "_numeric")
    ∷ fixed_type 2951 (ascii "_uuid")
    ∷ fixed_type 199 (ascii "_json")
    ∷ fixed_type 3807 (ascii "_jsonb")
    ∷ fixed_type 3904 (ascii "int4range")
    ∷ fixed_type 3906 (ascii "numrange")
    ∷ fixed_type 3908 (ascii "tsrange")
    ∷ fixed_type 3910 (ascii "tstzrange")
    ∷ fixed_type 3912 (ascii "daterange")
    ∷ fixed_type 3926 (ascii "int8range")
    ∷ fixed_type 4451 (ascii "int4multirange")
    ∷ fixed_type 4532 (ascii "nummultirange")
    ∷ fixed_type 4533 (ascii "tsmultirange")
    ∷ fixed_type 4534 (ascii "tstzmultirange")
    ∷ fixed_type 4535 (ascii "datemultirange")
    ∷ fixed_type 4536 (ascii "int8multirange")
    ∷ []

abbrev find_type : ℕ → List PgType → Option PgType
find_type oid [] = none
find_type oid (t ∷ types) =
    let later = find_type oid types in if t.oid == oid then some t else later

unfoldable pub known_type_for_oid : ℕ → Option PgType
known_type_for_oid oid = find_type oid known_types

abbrev or_unnamed : ℕ → Option PgType → PgType
or_unnamed oid none = fixed_type oid []
or_unnamed oid (some t) = t

unfoldable pub types_for_oids : List ℕ → List PgType
types_for_oids [] = []
types_for_oids (oid ∷ oids) = or_unnamed oid (known_type_for_oid oid) ∷ types_for_oids oids

find_type_oid : (oid : ℕ) (types : List PgType) → (or_unnamed oid (find_type oid types)).oid ≡ oid
find_type_oid oid [] = refl
find_type_oid oid (t ∷ types) = elim (Bool-cases (t.oid == oid)) [
  | inl e ↦ rw e ((==_iff t.oid oid).0 e)
  | inr e ↦ rw e (find_type_oid oid types)
]

abbrev pub oids_of : List PgType → List ℕ
oids_of [] = []
oids_of (t ∷ types) = t.oid ∷ oids_of types

-- Each OID gets a type of that OID, in order.
pub oids_of-types_for_oids : (oids : List ℕ) → oids_of (types_for_oids oids) ≡ oids
unfolding types_for_oids known_type_for_oid
oids_of-types_for_oids [] = refl
oids_of-types_for_oids (oid ∷ oids) =
    rw (find_type_oid oid known_types, oids_of-types_for_oids oids) refl
