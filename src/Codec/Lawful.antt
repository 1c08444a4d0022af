-- ===== src/Codec/Lawful.antt =====
-- The primitive codecs keep the laws of codecs.
use babar.Prelude.{
  ℕ, ◌≡◌, refl, List, [], ◌∷◌, Option, none, some, Bool, true, false, ok, ap, ◌∙◌, if◌then◌else◌,
}
use babar.Rust.{
  ℤ, to_i16, to_i32, to_i64, of_i16, of_i32, of_i64, IsI16, IsI32, IsI64, IsU32, IsU64,
  to_i16-of_i16, to_i32-of_i32, to_i64-of_i64, of_i16_bound, of_i32_bound, of_i64_bound,
  from_be16-be16, from_be32-be32, from_be64-be64, be16, be32, be64, IsUtf8, from_utf8-IsUtf8,
}
use babar.Codec.Interface.{IsLawful}
use babar.Codec.Integers.{int2, int4, int8}
use babar.Codec.Scalars.{
  bool, text, varchar, bpchar, bytea, starts_with_hex, float4, float8, float_text,
}

int2_bytes : (v : ℤ) → IsI16 v → int2.decode (some (be16 (of_i16 v)) ∷ []) ≡ ok v
unfolding int2
int2_bytes v h =
    ap ok (ap to_i16 (from_be16-be16 (of_i16 v) (of_i16_bound v h)) ∙ to_i16-of_i16 v h)

int4_bytes : (v : ℤ) → IsI32 v → int4.decode (some (be32 (of_i32 v)) ∷ []) ≡ ok v
unfolding int4
int4_bytes v h =
    ap ok (ap to_i32 (from_be32-be32 (of_i32 v) (of_i32_bound v h)) ∙ to_i32-of_i32 v h)

int8_bytes : (v : ℤ) → IsI64 v → int8.decode (some (be64 (of_i64 v)) ∷ []) ≡ ok v
unfolding int8
int8_bytes v h =
    ap ok (ap to_i64 (from_be64-be64 (of_i64 v) (of_i64_bound v h)) ∙ to_i64-of_i64 v h)

pub int2-IsLawful : IsLawful int2 IsI16
unfolding int2
int2-IsLawful = record {
  oids_length = refl;
  formats_length = refl;
  round_trip = λ v h. (some (be16 (of_i16 v)) ∷ [], refl, λ params. refl, int2_bytes v h);
}

pub int4-IsLawful : IsLawful int4 IsI32
unfolding int4
int4-IsLawful = record {
  oids_length = refl;
  formats_length = refl;
  round_trip = λ v h. (some (be32 (of_i32 v)) ∷ [], refl, λ params. refl, int4_bytes v h);
}

pub int8-IsLawful : IsLawful int8 IsI64
unfolding int8
int8-IsLawful = record {
  oids_length = refl;
  formats_length = refl;
  round_trip = λ v h. (some (be64 (of_i64 v)) ∷ [], refl, λ params. refl, int8_bytes v h);
}

abbrev IsAny : Bool → Type 0
IsAny b = Unit

pub bool-IsLawful : IsLawful bool IsAny
unfolding bool
bool-IsLawful = record {
  oids_length = refl;
  formats_length = refl;
  round_trip = λ v h. (some ((if v then 1 else 0) ∷ []) ∷ [], refl, λ params. refl, bool_byte v);
}
  where
    bool_byte : (v : Bool) → bool.decode (some ((if v then 1 else 0) ∷ []) ∷ []) ≡ ok v
    bool_byte true = refl
    bool_byte false = refl

pub text-IsLawful : IsLawful text IsUtf8
unfolding text
text-IsLawful = record {
  oids_length = refl;
  formats_length = refl;
  round_trip = λ v h. (some v ∷ [], refl, λ params. refl, rw (from_utf8-IsUtf8 v h) refl);
}

pub varchar-IsLawful : IsLawful varchar IsUtf8
unfolding varchar
varchar-IsLawful = record {
  oids_length = refl;
  formats_length = refl;
  round_trip = λ v h. (some v ∷ [], refl, λ params. refl, rw (from_utf8-IsUtf8 v h) refl);
}

pub bpchar-IsLawful : IsLawful bpchar IsUtf8
unfolding bpchar
bpchar-IsLawful = record {
  oids_length = refl;
  formats_length = refl;
  round_trip = λ v h. (some v ∷ [], refl, λ params. refl, rw (from_utf8-IsUtf8 v h) refl);
}

-- The bytes that the decoder does not take for the text form.
abbrev pub IsRaw : List ℕ → Type 0
IsRaw v = starts_with_hex v ≡ false

pub bytea-IsLawful : IsLawful bytea IsRaw
unfolding bytea
bytea-IsLawful = record {
  oids_length = refl;
  formats_length = refl;
  round_trip = λ v h. (some v ∷ [], refl, λ params. refl, rw h refl);
}

-- A float whose bytes the decoder does not take for text.
abbrev pub IsNoText : (List ℕ → Option ℕ) → (List ℕ) → Type 0
IsNoText parse_float bytes = float_text parse_float bytes ≡ none

abbrev pub IsFloat4 : (List ℕ → Option ℕ) → ℕ → Type 0
IsFloat4 parse_float v = IsU32 v × IsNoText parse_float (be32 v)

abbrev pub IsFloat8 : (List ℕ → Option ℕ) → ℕ → Type 0
IsFloat8 parse_float v = IsU64 v × IsNoText parse_float (be64 v)

pub float4-IsLawful :
    (parse_float : List ℕ → Option ℕ) → IsLawful (float4 parse_float) (IsFloat4 parse_float)
unfolding float4
float4-IsLawful parse_float = record {
  oids_length = refl;
  formats_length = refl;
  round_trip =
      λ v (h, n). (some (be32 v) ∷ [], refl, λ params. refl, rw n (ap ok (from_be32-be32 v h)));
}

pub float8-IsLawful :
    (parse_float : List ℕ → Option ℕ) → IsLawful (float8 parse_float) (IsFloat8 parse_float)
unfolding float8
float8-IsLawful parse_float = record {
  oids_length = refl;
  formats_length = refl;
  round_trip =
      λ v (h, n). (some (be64 v) ∷ [], refl, λ params. refl, rw n (ap ok (from_be64-be64 v h)));
}

-- The codecs of the integers, of bool and of the texts decode every value of their type from what they
-- encode; bytea every value that does not begin with the characters of the text form; and the floats
-- those whose bytes do not read as text. Each appends one parameter, under one OID and one format.
pub primitives-IsLawful :
    IsLawful int2 IsI16
    × IsLawful int4 IsI32
    × IsLawful int8 IsI64
    × IsLawful bool IsAny
    × IsLawful text IsUtf8
    × IsLawful varchar IsUtf8
    × IsLawful bpchar IsUtf8
    × IsLawful bytea IsRaw
    × ((parse_float : List ℕ → Option ℕ)
        → IsLawful (float4 parse_float) (IsFloat4 parse_float)
          × IsLawful (float8 parse_float) (IsFloat8 parse_float))
primitives-IsLawful = (
  int2-IsLawful,
  int4-IsLawful,
  int8-IsLawful,
  bool-IsLawful,
  text-IsLawful,
  varchar-IsLawful,
  bpchar-IsLawful,
  bytea-IsLawful,
  λ parse_float. (float4-IsLawful parse_float, float8-IsLawful parse_float),
)
