-- ===== src/Error/Fields.antt =====
-- What becomes of the fields of an `ErrorResponse`.
use babar.Prelude.{
  ℕ, ◌≡◌, refl, List, [], ◌∷◌, Option, none, some, Bool, true, false, ◌&&◌, ◌||◌, not, ◌==◌,
  if◌then◌else◌, arith, ap, ◌∙◌,
}
use babar.Rust.{parse_u64}
use babar.Error.Defs.{
  server, ServerError, no_context, no_server_error, is_empty, add_server_field, server_fields_loop,
  from_server_fields,
}

abbrev pub read_last : {X : Type 0} → (List ℕ → X) → X → Option (List ℕ) → X
read_last read absent none = absent
read_last read absent (some v) = read v

-- The value of the last field with a key.
abbrev pub last_value : ℕ → List (ℕ × List ℕ) → Option (List ℕ)
last_value key [] = none
last_value key ((k, v) ∷ fields) = elim (last_value key fields) [
  | some w ↦ some w
  | none ↦ if k == key then some v else none
]

-- The first severity, localized or not, that is not empty.
abbrev pub first_severity : List (ℕ × List ℕ) → List ℕ
first_severity [] = []
first_severity ((k, v) ∷ fields) =
    let later = first_severity fields in
    if (k == b'S' || k == b'V') && not (is_empty v) then v else later

-- A field that is read from one key, and overwritten.
module _ {X : Type 0} (key : ℕ) (read : List ℕ → X) (field : ServerError → X)
    (adds : (e : ServerError) (k : ℕ) (v : List ℕ)
      → field (add_server_field e k v) ≡ (if k == key then read v else field e)) where
  read_last-cons :
      (k : ℕ) (v : List ℕ) (o : Option (List ℕ)) (absent : X)
      → read_last read (if k == key then read v else absent) o
        ≡ read_last read absent
            (elim o [ some w ↦ some w | none ↦ if k == key then some v else none ])
  read_last-cons k v (some w) absent = refl
  read_last-cons k v none absent = ground arith

  server_fields_loop_last :
      (e : ServerError) (fields : List (ℕ × List ℕ))
      → field (server_fields_loop e fields) ≡ read_last read (field e) (last_value key fields)
  unfolding server_fields_loop
  server_fields_loop_last e [] = refl
  server_fields_loop_last e ((k, v) ∷ fields) =
      server_fields_loop_last (add_server_field e k v) fields
      ∙ ap (λ x. read_last read x (last_value key fields)) (adds e k v)
      ∙ read_last-cons k v (last_value key fields) (field e)

add_server_field-severity :
    (e : ServerError) (k : ℕ) (v : List ℕ)
    → (add_server_field e k v).severity
      ≡ (if (k == b'S' || k == b'V') && is_empty e.severity then v else e.severity)
unfolding add_server_field
add_server_field-severity e k v = ground arith

keep_first :
    (named : Bool) (v old later : List ℕ)
    → let new = if named && is_empty old then v else old in
      (if is_empty new then later else new)
      ≡ (if is_empty old then (if named && not (is_empty v) then v else later) else old)
keep_first true [] [] later = refl
keep_first true (c ∷ v) [] later = refl
keep_first true v (d ∷ old) later = refl
keep_first false v [] later = refl
keep_first false v (d ∷ old) later = refl

nothing_later : (old : List ℕ) → old ≡ (if is_empty old then [] else old)
nothing_later [] = refl
nothing_later (d ∷ old) = refl

first_severity-cons :
    (k : ℕ) (v old : List ℕ) (fields : List (ℕ × List ℕ))
    → let new = if (k == b'S' || k == b'V') && is_empty old then v else old in
      (if is_empty new then first_severity fields else new)
      ≡ (if is_empty old then first_severity ((k, v) ∷ fields) else old)
first_severity-cons k v old fields =
    keep_first (k == b'S' || k == b'V') v old (first_severity fields)

server_fields_loop-severity :
    (e : ServerError) (fields : List (ℕ × List ℕ))
    → (server_fields_loop e fields).severity
      ≡ (if is_empty e.severity then first_severity fields else e.severity)
unfolding server_fields_loop
server_fields_loop-severity e [] = nothing_later e.severity
server_fields_loop-severity e ((k, v) ∷ fields) =
    server_fields_loop-severity (add_server_field e k v) fields
    ∙ ap (λ s. if is_empty s then first_severity fields else s) (add_server_field-severity e k v)
    ∙ first_severity-cons k v e.severity fields

-- The error of a server has the last code, message, detail, hint and position among the fields, the
-- position only if the last one is a number, and the first severity that is not empty, localized or not;
-- fields with other keys change nothing.
pub from_server_fields_lem :
    (fields : List (ℕ × List ℕ))
    → from_server_fields fields
      ≡ server
          (record {
            code = read_last (λ v. v) [] (last_value b'C' fields);
            severity = first_severity fields;
            message = read_last (λ v. v) [] (last_value b'M' fields);
            detail = read_last (λ v. some v) none (last_value b'D' fields);
            hint = read_last (λ v. some v) none (last_value b'H' fields);
            position = read_last parse_u64 none (last_value b'P' fields);
          })
          no_context
unfolding from_server_fields
from_server_fields_lem fields =
    let code =
      server_fields_loop_last b'C' (λ v. v) (λ (e : ServerError). e.code)
        (λ e k v. unfold add_server_field in ground arith) no_server_error fields in
    let message =
      server_fields_loop_last b'M' (λ v. v) (λ (e : ServerError). e.message)
        (λ e k v. unfold add_server_field in ground arith) no_server_error fields in
    let detail =
      server_fields_loop_last b'D' (λ v. some v) (λ (e : ServerError). e.detail)
        (λ e k v. unfold add_server_field in ground arith) no_server_error fields in
    let hint =
      server_fields_loop_last b'H' (λ v. some v) (λ (e : ServerError). e.hint)
        (λ e k v. unfold add_server_field in ground arith) no_server_error fields in
    let position =
      server_fields_loop_last b'P' parse_u64 (λ (e : ServerError). e.position)
        (λ e k v. unfold add_server_field in ground arith) no_server_error fields in
    let severity = server_fields_loop-severity no_server_error fields in
    λ i.
      server
        (record {
          code = code i;
          severity = severity i;
          message = message i;
          detail = detail i;
          hint = hint i;
          position = position i;
        })
        no_context
