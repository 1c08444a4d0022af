-- ===== src/Session/RowShape.antt =====
-- crates/core/src/session/mod.rs: `validate_row_description`, the check of the columns that the server
-- announces against those that the decoder declares.
use babar.Prelude.{
  ℕ, ◌+◌, ◌≡◌, refl, List, [], ◌∷◌, Result, ok, err, length, ◌==◌, if◌then◌else◌, arith,
}
use babar.Error.{Error, column_alignment, schema_mismatch, no_context}
use babar.Protocol.Backend.{RowField}

-- The loop over the pairs of a declared OID and a column, from `position` on; it ends with the shorter list.
unfoldable pub check_oids : ℕ → List ℕ → List RowField → Result Error (Unit {0})
check_oids position [] fields = ok tt
check_oids position (expected ∷ oids) [] = ok tt
check_oids position (expected ∷ oids) (field ∷ fields) =
    let rest = check_oids (position + 1) oids fields in
    if expected == field.type_oid
    then rest
    else err (schema_mismatch position expected field.type_oid field.name no_context)

unfoldable pub validate_row_description : ℕ → List RowField → List ℕ → Result Error (Unit {0})
validate_row_description n_columns row_fields expected_oids =
    if length row_fields == n_columns
    then check_oids 0 expected_oids row_fields
    else err (column_alignment n_columns (length row_fields) no_context)

abbrev pub field_oids : List RowField → List ℕ
field_oids [] = []
field_oids (field ∷ fields) = field.type_oid ∷ field_oids fields

check_oids_lem :
    (position : ℕ) (oids : List ℕ) (fields : List RowField)
    → length oids ≡ length fields
    → check_oids position oids fields ≡ ok tt
    → field_oids fields ≡ oids
unfolding check_oids
check_oids_lem position [] [] h e = refl
check_oids_lem position [] (field ∷ fields) h e = ground arith
check_oids_lem position (expected ∷ oids) [] h e = ground arith
check_oids_lem position (expected ∷ oids) (field ∷ fields) h e =
    ground (arith, check_oids_lem (position + 1) oids fields)

-- Rows are decoded only if they have the columns that the decoder declares, with their OIDs where it declares an
-- OID for each.
pub validate_row_description_lem :
    (n_columns : ℕ) (row_fields : List RowField) (expected_oids : List ℕ)
    → validate_row_description n_columns row_fields expected_oids ≡ ok tt
    → (length row_fields ≡ n_columns)
      × (length expected_oids ≡ n_columns → field_oids row_fields ≡ expected_oids)
unfolding validate_row_description
validate_row_description_lem n_columns row_fields expected_oids e =
    ground (arith, check_oids_lem 0 expected_oids row_fields)
