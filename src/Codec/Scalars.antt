-- ===== src/Codec/Scalars.antt =====
-- crates/core/src/codec/primitive.rs: float4, float8, bool, text, varchar, bpchar and bytea. A float is its
-- bit pattern, and the standard library's reader of floats is a parameter; NaN and the infinities, which
-- the code names first, are among what it reads.
use babar.Prelude.{
  ℕ, ◌+◌, ◌-◌, ◌*◌, List, [], ◌∷◌, ◌++◌, Option, none, some, Bool, true, false, ◌&&◌, ◌||◌, Result,
  ok, err, ◌>>=◌, ok_or, leb, ◌==◌, if◌then◌else◌,
}
use babar.Error.{Error, codec}
use babar.Codec.Interface.{Codec}
use babar.Codec.Primitive.{primitive_bytes, primitive_str, utf8_text}
use babar.Rust.{from_be32, from_be64, be32, be64, is_digit, from_utf8, ascii, equals}

abbrev pub float_text : (List ℕ → Option ℕ) → List ℕ → Option ℕ
float_text parse_float bytes = elim (from_utf8 bytes) [ none ↦ none | some s ↦ parse_float s ]

abbrev text_or : {A : Type 0} → Result Error A → Option A → Result Error A
text_or binary none = binary
text_or binary (some v) = ok v

abbrev decode_float4_bytes : List ℕ → Result Error ℕ
decode_float4_bytes (a ∷ b ∷ c ∷ d ∷ []) = ok (from_be32 a b c d)
decode_float4_bytes bytes = err (codec (ascii "float4: cannot decode as text or binary"))

abbrev decode_float8_bytes : List ℕ → Result Error ℕ
decode_float8_bytes (a ∷ b ∷ c ∷ d ∷ e ∷ f ∷ g ∷ h ∷ []) = ok (from_be64 a b c d e f g h)
decode_float8_bytes bytes = err (codec (ascii "float8: cannot decode as text or binary"))

module _ (parse_float : List ℕ → Option ℕ) where
  unfoldable pub float4 : Codec ℕ
  float4 = record {
    encode = λ value params. ok (params ++ (some (be32 value) ∷ []));
    decode = λ columns. primitive_bytes (ascii "float4") columns >>= λ bytes.
        text_or (decode_float4_bytes bytes) (float_text parse_float bytes);
    n_columns = 1;
    oids = 700 ∷ [];
    format_codes = 1 ∷ [];
  }

  unfoldable pub float8 : Codec ℕ
  float8 = record {
    encode = λ value params. ok (params ++ (some (be64 value) ∷ []));
    decode = λ columns. primitive_bytes (ascii "float8") columns >>= λ bytes.
        text_or (decode_float8_bytes bytes) (float_text parse_float bytes);
    n_columns = 1;
    oids = 701 ∷ [];
    format_codes = 1 ∷ [];
  }

abbrev decode_bool_bytes : List ℕ → Result Error Bool
decode_bool_bytes (b ∷ []) =
    if b == 1 || b == b't'
    then ok true
    else if b == 0 || b == b'f'
    then ok false
    else err (codec (ascii "bool: unexpected byte"))
decode_bool_bytes bytes =
    if equals bytes (ascii "true")
    then ok true
    else if equals bytes (ascii "false")
    then ok false
    else err (codec (ascii "bool: unexpected value"))

unfoldable pub bool : Codec Bool
bool = record {
  encode = λ value params. ok (params ++ (some ((if value then 1 else 0) ∷ []) ∷ []));
  decode = λ columns. primitive_bytes (ascii "bool") columns >>= decode_bool_bytes;
  n_columns = 1;
  oids = 16 ∷ [];
  format_codes = 1 ∷ [];
}

unfoldable pub text : Codec (List ℕ)
text = record {
  encode = λ value params. ok (params ++ (some value ∷ []));
  decode = λ columns. primitive_str (ascii "text") columns;
  n_columns = 1;
  oids = 25 ∷ [];
  format_codes = 1 ∷ [];
}

unfoldable pub varchar : Codec (List ℕ)
varchar = record {
  encode = λ value params. ok (params ++ (some value ∷ []));
  decode = λ columns. primitive_str (ascii "varchar") columns;
  n_columns = 1;
  oids = 1043 ∷ [];
  format_codes = 1 ∷ [];
}

unfoldable pub bpchar : Codec (List ℕ)
bpchar = record {
  encode = λ value params. ok (params ++ (some value ∷ []));
  decode = λ columns. primitive_str (ascii "bpchar") columns;
  n_columns = 1;
  oids = 1042 ∷ [];
  format_codes = 1 ∷ [];
}

abbrev hex_value : ℕ → Option ℕ
hex_value c =
    if is_digit c
    then some (c - b'0')
    else if leb b'a' c && leb c b'f'
    then some (c - b'a' + 10)
    else if leb b'A' c && leb c b'F'
    then some (c - b'A' + 10)
    else none

abbrev hex_pair : Option ℕ → Option ℕ → Option ℕ
hex_pair (some x) (some y) = some (x * 16 + y)
hex_pair x y = none

-- `u8::from_str_radix(pair, 16)`, which takes a `+` in front of a digit. A byte above 127 is no digit,
-- whether the pair is UTF-8 or not, and both are errors.
abbrev pub from_str_radix : ℕ → ℕ → Option ℕ
from_str_radix a b = if a == b'+' then hex_value b else hex_pair (hex_value a) (hex_value b)

abbrev put_pair : Option ℕ → Option (List ℕ) → Option (List ℕ)
put_pair (some x) (some bytes) = some (x ∷ bytes)
put_pair x bytes = none

-- The loop over the chunks; a last digit without a partner is an error of its own.
unfoldable pub hex_bytes : List ℕ → Option (List ℕ)
hex_bytes [] = some []
hex_bytes (a ∷ []) = none
hex_bytes (a ∷ b ∷ hex) = put_pair (from_str_radix a b) (hex_bytes hex)

abbrev pub starts_with_hex : List ℕ → Bool
starts_with_hex (a ∷ b ∷ hex) = a == b'\\' && b == b'x'
starts_with_hex bytes = false

abbrev after_prefix : List ℕ → List ℕ
after_prefix (a ∷ b ∷ hex) = hex
after_prefix bytes = []

abbrev pub decode_bytea_bytes : List ℕ → Result Error (List ℕ)
decode_bytea_bytes bytes =
    if starts_with_hex bytes
    then (utf8_text (ascii "bytea") bytes >>= λ s.
        ok_or (hex_bytes (after_prefix s)) (codec (ascii "bytea: bad hex")))
    else ok bytes

unfoldable pub bytea : Codec (List ℕ)
bytea = record {
  encode = λ value params. ok (params ++ (some value ∷ []));
  decode = λ columns. primitive_bytes (ascii "bytea") columns >>= decode_bytea_bytes;
  n_columns = 1;
  oids = 17 ∷ [];
  format_codes = 1 ∷ [];
}
