-- ===== src/Codec/Integers.antt =====
-- crates/core/src/codec/primitive.rs: int2, int4 and int8.
use babar.Prelude.{
  ℕ, ◌+◌, ◌-◌, ◌*◌, List, [], ◌∷◌, ◌++◌, Option, none, some, Bool, true, false, Result, ok, ◌>>=◌,
  ok_or, ltb, leb, ◌==◌, if◌then◌else◌,
}
use babar.Error.{Error, codec}
use babar.Codec.Interface.{Codec}
use babar.Codec.Primitive.{primitive_bytes, utf8_text}
use babar.Rust.{
  ℤ, pos, negsuc, to_i16, to_i32, to_i64, of_i16, of_i32, of_i64, from_be16, from_be32, from_be64,
  be16, be32, be64, is_digit, ascii,
}

-- `str::parse` on signed integers: a sign, then digits, whose number must be in range.
unfoldable pub parse_magnitude : ℕ → List ℕ → Option ℕ
parse_magnitude acc [] = some acc
parse_magnitude acc (c ∷ cs) =
    let more = parse_magnitude (acc * 10 + (c - b'0')) cs in if is_digit c then more else none

abbrev in_range : (bound : ℕ) → (negative : Bool) → Option ℕ → Option ℤ
in_range bound negative none = none
in_range bound true (some n) =
    if leb n bound then (if n == 0 then some (pos 0) else some (negsuc (n - 1))) else none
in_range bound false (some n) = if ltb n bound then some (pos n) else none

unfoldable pub parse_signed : (bound : ℕ) → List ℕ → Option ℤ
parse_signed bound [] = none
parse_signed bound (c ∷ []) = in_range bound false (parse_magnitude 0 (c ∷ []))
parse_signed bound (c ∷ d ∷ cs) =
    if c == b'-'
    then in_range bound true (parse_magnitude 0 (d ∷ cs))
    else if c == b'+'
    then in_range bound false (parse_magnitude 0 (d ∷ cs))
    else in_range bound false (parse_magnitude 0 (c ∷ d ∷ cs))

-- The text fallback.
abbrev int_text : (type_name : List ℕ) → (bound : ℕ) → List ℕ → Result Error ℤ
int_text name bound bytes = utf8_text name bytes >>= λ s.
    ok_or (parse_signed bound s) (codec (name ++ ascii ": (got " ++ s ++ ascii ")"))

-- `Int2Codec`.
abbrev decode_int2_bytes : List ℕ → Result Error ℤ
decode_int2_bytes (a ∷ b ∷ []) = ok (to_i16 (from_be16 a b))
decode_int2_bytes bytes = int_text (ascii "int2") 0x8000 bytes

unfoldable pub int2 : Codec ℤ
int2 = record {
  encode = λ value params. ok (params ++ (some (be16 (of_i16 value)) ∷ []));
  decode = λ columns. primitive_bytes (ascii "int2") columns >>= decode_int2_bytes;
  n_columns = 1;
  oids = 21 ∷ [];
  format_codes = 1 ∷ [];
}

-- `Int4Codec`.
abbrev decode_int4_bytes : List ℕ → Result Error ℤ
decode_int4_bytes (a ∷ b ∷ c ∷ d ∷ []) = ok (to_i32 (from_be32 a b c d))
decode_int4_bytes bytes = int_text (ascii "int4") 0x8000_0000 bytes

unfoldable pub int4 : Codec ℤ
int4 = record {
  encode = λ value params. ok (params ++ (some (be32 (of_i32 value)) ∷ []));
  decode = λ columns. primitive_bytes (ascii "int4") columns >>= decode_int4_bytes;
  n_columns = 1;
  oids = 23 ∷ [];
  format_codes = 1 ∷ [];
}

-- `Int8Codec`.
abbrev decode_int8_bytes : List ℕ → Result Error ℤ
decode_int8_bytes (a ∷ b ∷ c ∷ d ∷ e ∷ f ∷ g ∷ h ∷ []) = ok (to_i64 (from_be64 a b c d e f g h))
decode_int8_bytes bytes = int_text (ascii "int8") 0x8000_0000_0000_0000 bytes

unfoldable pub int8 : Codec ℤ
int8 = record {
  encode = λ value params. ok (params ++ (some (be64 (of_i64 value)) ∷ []));
  decode = λ columns. primitive_bytes (ascii "int8") columns >>= decode_int8_bytes;
  n_columns = 1;
  oids = 20 ∷ [];
  format_codes = 1 ∷ [];
}
