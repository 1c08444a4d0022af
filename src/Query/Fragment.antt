-- ===== src/Query/Fragment.antt =====
-- crates/core/src/query/fragment.rs: `Fragment` and its builders. A type's metadata, which the code takes
-- from the encoder beside the OID, is left out.
use babar.Prelude.{
  ℕ, zero, suc, ◌+◌, ◌/◌, ◌%◌, ◌^◌, List, [], ◌∷◌, ◌++◌, Option, none, some, true, false, not, ◌&&◌,
  Result, ok, ◌>>=◌, map_ok, length, ltb, ◌==◌, if◌then◌else◌,
}
use babar.Rust.{is_digit, parse_u64, u64_to_string}
use babar.Error.{Error, Origin, is_empty}
use babar.Codec.Interface.{Cell}

pub record Encoder (A : Type 0) : Type 0 where
  pub encode : A → (params : List Cell) → Result Error (List Cell)
  pub oids : List ℕ
  pub format_codes : List ℕ

pub record BoundStatement : Type 0 where
  pub sql : List ℕ
  pub params : List Cell
  pub param_oids : List ℕ
  pub param_formats : List ℕ

abbrev pub empty_statement : BoundStatement
empty_statement = record { sql = []; params = []; param_oids = []; param_formats = [] }

abbrev add_metadata : {A : Type 0} → Encoder A → BoundStatement → List Cell → BoundStatement
add_metadata e b params = record b {
  params = params;
  param_oids = b.param_oids ++ e.oids;
  param_formats = b.param_formats ++ e.format_codes;
}

unfoldable pub push_bound_param :
    {A : Type 0} → Encoder A → A → BoundStatement → Result Error BoundStatement
push_bound_param e value b = map_ok (add_metadata e b) (e.encode value b.params)

abbrev pub null_cells : List ℕ → List Cell
null_cells [] = []
null_cells (oid ∷ oids) = none ∷ null_cells oids

unfoldable pub push_null_param : {A : Type 0} → Encoder A → BoundStatement → BoundStatement
push_null_param e b = add_metadata e b (b.params ++ null_cells e.oids)

-- The encoder of `()`, and `Toggle`.
abbrev pub no_params : {A : Type 0} → Encoder A
no_params = record { encode = λ value params. ok params; oids = []; format_codes = [] }

-- `AppendOne`, `AppendChain`.
unfoldable pub append_encoder : {A B : Type 0} → Encoder A → Encoder B → Encoder (A × B)
append_encoder head tail = record {
  encode = λ (a, b) params. head.encode a params >>= tail.encode b;
  oids = head.oids ++ tail.oids;
  format_codes = head.format_codes ++ tail.format_codes;
}

pub record Fragment (A : Type 0) : Type 0 where
  pub sql : List ℕ
  pub encoder : Encoder A
  pub n_params : ℕ
  pub origin : Option Origin
  pub dynamic : Option (A → Result Error BoundStatement)

-- `Fragment::__from_parts`.
abbrev pub from_parts :
    {A : Type 0} → List ℕ → Encoder A → (n_params : ℕ) → Option Origin → Fragment A
from_parts sql encoder n_params origin = record {
  sql = sql;
  encoder = encoder;
  n_params = n_params;
  origin = origin;
  dynamic = none;
}

abbrev pub lit : List ℕ → Fragment (Unit {0})
lit sql = from_parts sql no_params 0 none

abbrev pub append_lit : {A : Type 0} → Fragment A → List ℕ → Fragment A
append_lit f sql = record f { sql = f.sql ++ sql }

abbrev pub placeholder : ℕ → List ℕ
placeholder n = b'$' ∷ u64_to_string n

-- A count is a `usize`.
unfoldable pub bind_codec : {A X : Type 0} → Fragment A → Encoder X → Fragment (A × X)
bind_codec f codec =
    let n = (f.n_params + 1) % 2 ^ 64 in
    from_parts (f.sql ++ placeholder n) (append_encoder f.encoder codec) n f.origin

-- `char::from(b)` in UTF-8.
abbrev pub push_char : ℕ → List ℕ
push_char b = if ltb b 0x80 then b ∷ [] else (0xc0 + b / 64) ∷ (0x80 + b % 64) ∷ []

-- The digits that a text begins with.
abbrev pub digit_run : List ℕ → List ℕ
digit_run [] = []
digit_run (b ∷ bytes) = let more = digit_run bytes in if is_digit b then b ∷ more else []

-- A number that does not fit in a `usize` panics, and so gives none.
abbrev pub put_number : (offset : ℕ) → Option ℕ → Option (List ℕ) → Option (List ℕ)
put_number offset (some n) (some rest) = some (placeholder ((n + offset) % 2 ^ 64) ++ rest)
put_number offset n rest = none

abbrev pub put_text : List ℕ → Option (List ℕ) → Option (List ℕ)
put_text s none = none
put_text s (some rest) = some (s ++ rest)

-- The loop over the bytes. The digits of a placeholder were already read when the loop comes to them, and
-- it skips so many bytes.
unfoldable pub renumber_loop : (offset skip : ℕ) → List ℕ → Option (List ℕ)
renumber_loop offset skip [] = some []
renumber_loop offset (suc skip) (b ∷ bytes) = renumber_loop offset skip bytes
renumber_loop offset zero (b ∷ bytes) = elim (b == b'$' && not (is_empty (digit_run bytes))) [
  | true ↦
      put_number offset (parse_u64 (digit_run bytes))
        (renumber_loop offset (length (digit_run bytes)) bytes)
  | false ↦ put_text (push_char b) (renumber_loop offset 0 bytes)
]

unfoldable pub renumber_placeholders : List ℕ → (offset : ℕ) → Option (List ℕ)
renumber_placeholders sql offset = if offset == 0 then some sql else renumber_loop offset 0 sql

-- `Option::or`.
abbrev pub first_origin : Option Origin → Option Origin → Option Origin
first_origin none o = o
first_origin (some o) p = some o

abbrev chain :
    {A B : Type 0} → Fragment A → Fragment B → Option (List ℕ) → Option (Fragment (A × B))
chain f g none = none
chain f g (some renumbered) = some (
    from_parts (f.sql ++ renumbered) (append_encoder f.encoder g.encoder)
      ((f.n_params + g.n_params) % 2 ^ 64) (first_origin f.origin g.origin))

-- `Fragment::plus`.
unfoldable pub plus : {A B : Type 0} → Fragment A → Fragment B → Option (Fragment (A × B))
plus f g = chain f g (renumber_placeholders g.sql f.n_params)

abbrev bound : {A : Type 0} → Fragment A → List Cell → BoundStatement
bound f params = record {
  sql = f.sql;
  params = params;
  param_oids = f.encoder.oids;
  param_formats = f.encoder.format_codes;
}

unfoldable pub bind_runtime : {A : Type 0} → Fragment A → A → Result Error BoundStatement
bind_runtime f args = elim f.dynamic [
  | none ↦ map_ok (bound f) (f.encoder.encode args [])
  | some dynamic ↦ dynamic args
]
