-- ===== src/Error/Defs.antt =====
-- crates/core/src/error.rs: `Error`, and `from_server_fields`, `with_sql`, `clone_for_caller`.
use babar.Prelude.{
  ℕ, String, List, [], ◌∷◌, Option, none, some, Bool, true, false, ◌&&◌, ◌||◌, ◌==◌, if◌then◌else◌,
}
use babar.Rust.{ℤ, parse_u64}

pub data Message : Type 0 where
  out_of_bytes missing_nul not_utf8 : String → Message
  frame_too_short : ℕ → Message
  negative_count : String → ℤ → Message
  column_length_below : ℤ → Message
  column_truncated : Message
  salt_length : ℕ → Message
  sasl_unterminated sasl_mechanism_unterminated sasl_mechanism_not_utf8 : Message
  copy_format : ℕ → List ℤ → Message
  copy_without_command_complete : Message
  frontend_encode : ℕ → Message
  unexpected_message : String → Message

-- `query::Origin`: file, line and column of a macro call.
pub record Origin : Type 0 where
  pub file : List ℕ
  pub line : ℕ
  pub column : ℕ

-- The SQL that an error is about, and where it was written.
pub record SqlContext : Type 0 where
  pub sql : Option (List ℕ)
  pub origin : Option Origin

abbrev pub no_context : SqlContext
no_context = record { sql = none; origin = none }

pub record ServerError : Type 0 where
  pub code : List ℕ
  pub severity : List ℕ
  pub message : List ℕ
  pub detail : Option (List ℕ)
  pub hint : Option (List ℕ)
  pub position : Option ℕ

-- `io` holds the operating system's error number. `out_of_fuel` is no value of the Rust type: a loop
-- of the model used up its rounds.
pub data Error : Type 0 where
  io : ℕ → Error
  closed : SqlContext → Error
  protocol : Message → Error
  auth unsupported_auth config codec : List ℕ → Error
  server : ServerError → SqlContext → Error
  column_alignment : ℕ → ℕ → SqlContext → Error
  schema_mismatch : ℕ → ℕ → ℕ → List ℕ → SqlContext → Error
  out_of_fuel : Error

abbrev pub is_empty : List ℕ → Bool
is_empty [] = true
is_empty (b ∷ bs) = false

abbrev pub no_server_error : ServerError
no_server_error = record {
  code = [];
  severity = [];
  message = [];
  detail = none;
  hint = none;
  position = none;
}

-- One round of the loop over the fields of an `ErrorResponse`.
unfoldable pub add_server_field : ServerError → ℕ → List ℕ → ServerError
add_server_field e key value =
    if (key == b'S' || key == b'V') && is_empty e.severity
    then record e { severity = value }
    else if key == b'C'
    then record e { code = value }
    else if key == b'M'
    then record e { message = value }
    else if key == b'D'
    then record e { detail = some value }
    else if key == b'H'
    then record e { hint = some value }
    else if key == b'P'
    then record e { position = parse_u64 value }
    else e

unfoldable pub server_fields_loop : ServerError → List (ℕ × List ℕ) → ServerError
server_fields_loop e [] = e
server_fields_loop e ((key, value) ∷ fields) =
    server_fields_loop (add_server_field e key value) fields

unfoldable pub from_server_fields : List (ℕ × List ℕ) → Error
from_server_fields fields = server (server_fields_loop no_server_error fields) no_context

-- `slot` stays if it is set.
abbrev pub or_set {ℓ} : {A : Type ℓ} → Option A → Option A → Option A
or_set none x = x
or_set (some a) x = some a

unfoldable pub add_context : SqlContext → List ℕ → Option Origin → SqlContext
add_context c sql origin = record { sql = or_set c.sql (some sql); origin = or_set c.origin origin }

unfoldable pub with_sql : Error → List ℕ → Option Origin → Error
with_sql (closed c) sql origin = closed (add_context c sql origin)
with_sql (column_alignment e a c) sql origin = column_alignment e a (add_context c sql origin)
with_sql (schema_mismatch p e a n c) sql origin = schema_mismatch p e a n (add_context c sql origin)
with_sql (server e c) sql origin = server e (add_context c sql origin)
with_sql e sql origin = e

-- What is told to the caller of a failed write: an `io` error and a closed connection are told as
-- closed, with no context.
unfoldable pub clone_for_caller : Error → Error
clone_for_caller (io n) = closed no_context
clone_for_caller (closed c) = closed no_context
clone_for_caller e = e
