-- ===== src/Protocol/Fields.antt =====
-- The readers take back the fields that the wire format writes.
use babar.Prelude.{
  ℕ, zero, suc, ◌<◌, ◌≡◌, ◌≢◌, refl, List, [], ◌∷◌, ◌++◌, String, Option, none, some, ok, length,
  length-append, All, take_front, drop_front, drop, arith, append_assoc, append-nil, ne→==,
}
use babar.Rust.{
  ℤ, pos, negsuc, of_i16, of_i32, IsI16, IsI32, IsU32, to_i16-of_i16, to_i32-of_i32, of_i16_bound,
  of_i32_bound, from_be16-be16, from_be32-be32, from_utf8-IsUtf8,
}
use babar.Protocol.Backend.{Bytes, Text, RowField}
use babar.Protocol.Reader.{
  Reader, ◌>>=◌, read_u8, read_i16, read_i32, read_u32, read_cstr, repeat, find_nul,
}
use babar.Protocol.Decode.{read_row_field, read_column, split_column, error_fields_loop, sasl_loop}
use babar.Protocol.Wire.{
  put_i16, put_i32, put_u32, put_cstr, put_all, put_row_field, put_column, put_error_field, IsText,
  IsRowField, IsColumn, IsErrorField,
}

pub read_i16-put_i16 :
    (ctx : String) (z : ℤ) (rest : Bytes) → IsI16 z → read_i16 ctx (put_i16 z rest) ≡ ok (z, rest)
unfolding read_i16
read_i16-put_i16 ctx z rest h = rw (from_be16-be16 (of_i16 z) (of_i16_bound z h), to_i16-of_i16 z h)

pub read_i32-put_i32 :
    (ctx : String) (z : ℤ) (rest : Bytes) → IsI32 z → read_i32 ctx (put_i32 z rest) ≡ ok (z, rest)
unfolding read_i32
read_i32-put_i32 ctx z rest h = rw (from_be32-be32 (of_i32 z) (of_i32_bound z h), to_i32-of_i32 z h)

pub read_u32-put_u32 :
    (ctx : String) (n : ℕ) (rest : Bytes) → IsU32 n → read_u32 ctx (put_u32 n rest) ≡ ok (n, rest)
unfolding read_u32
read_u32-put_u32 ctx n rest h = rw (from_be32-be32 n h)

pub find_nul-append :
    (s : Text) (rest : Bytes) → All (λ b. b ≢ 0) s → find_nul (s ++ (0 ∷ rest)) ≡ some (length s)
unfolding find_nul
find_nul-append [] rest h = refl
find_nul-append (b ∷ s) rest h = ground (arith, find_nul-append s rest h.1)

pub drop_cstr : (s : Text) (rest : Bytes) → drop (suc (length s)) (put_cstr s rest) ≡ rest
drop_cstr [] rest = refl
drop_cstr (b ∷ s) rest = drop_cstr s rest

pub read_cstr-put_cstr :
    (ctx : String) (s : Text) (rest : Bytes)
    → IsText s
    → read_cstr ctx (put_cstr s rest) ≡ ok (s, rest)
unfolding read_cstr
read_cstr-put_cstr ctx s rest (u, z) =
    rw (find_nul-append s rest z, take_front s (0 ∷ rest), from_utf8-IsUtf8 s u, drop_cstr s rest)

pub repeat-put_all :
    {A : Type 0} (m : Reader A) (put : A → Bytes → Bytes) (P : A → Type 0)
    → ((a : A) (rest : Bytes) → P a → m (put a rest) ≡ ok (a, rest))
    → (xs : List A) (rest : Bytes) → All P xs
    → repeat (length xs) m (put_all put xs rest) ≡ ok (xs, rest)
unfolding repeat
repeat-put_all m put P h [] rest all = refl
repeat-put_all m put P h (x ∷ xs) rest (px, all) =
    ground (arith, h x (put_all put xs rest) px, repeat-put_all m put P h xs rest all)

pub read_row_field-put_row_field :
    (f : RowField) (rest : Bytes)
    → IsRowField f
    → read_row_field (put_row_field f rest) ≡ ok (f, rest)
unfolding read_row_field
read_row_field-put_row_field f rest h = rw (
  read_cstr-put_cstr "RowDescription.field.name" f.name _ h.name,
  read_row_field,
  read_u32-put_u32 "RowDescription.field.table_oid" f.table_oid _ h.table_oid,
  ◌>>=◌,
  read_i16-put_i16 "RowDescription.field.column_id" f.column_id _ h.column_id,
  read_u32-put_u32 "RowDescription.field.type_oid" f.type_oid _ h.type_oid,
  read_i16-put_i16 "RowDescription.field.type_size" f.type_size _ h.type_size,
  read_i32-put_i32 "RowDescription.field.type_modifier" f.type_modifier _ h.type_modifier,
  read_i16-put_i16 "RowDescription.field.format" f.format rest h.format,
)

pub read_column-put_column :
    (c : Option Bytes) (rest : Bytes) → IsColumn c → read_column (put_column c rest) ≡ ok (c, rest)
unfolding read_column split_column
read_column-put_column none rest h =
    rw (read_i32-put_i32 "DataRow.column.length" (negsuc 0) rest (omega arith), ◌>>=◌)
read_column-put_column (some bytes) rest h = ground (
  arith,
  read_i32-put_i32 "DataRow.column.length" (pos (length bytes)) (bytes ++ rest),
  take_front bytes rest,
  drop_front bytes rest,
  length-append bytes rest,
)

pub error_fields_loop-put_all :
    (fuel : ℕ) (fs acc : List (ℕ × Text)) (rest : Bytes)
    → length fs < fuel
    → All IsErrorField fs
    → error_fields_loop fuel acc (put_all put_error_field fs (0 ∷ rest)) ≡ ok (acc ++ fs, rest)
unfolding error_fields_loop read_u8
error_fields_loop-put_all zero fs acc rest h all = absurd (omega arith)
error_fields_loop-put_all (suc fuel) [] acc rest h all = rw append-nil
error_fields_loop-put_all (suc fuel) ((code, value) ∷ fs) acc rest h ((c, t), all) = ground (
  arith,
  read_cstr-put_cstr "ErrorResponse.field.value" value (put_all put_error_field fs (0 ∷ rest)) t,
  error_fields_loop-put_all fuel fs (acc ++ ((code, value) ∷ [])) rest (omega arith) all,
  append_assoc acc ((code, value) ∷ []) fs,
)

pub sasl_loop-put_all :
    (fuel : ℕ) (ms acc : List Text) (rest : Bytes)
    → length ms < fuel
    → All (λ name. (name ≢ []) × IsText name) ms
    → sasl_loop fuel acc (put_all put_cstr ms (0 ∷ rest)) ≡ ok (acc ++ ms)
unfolding sasl_loop
sasl_loop-put_all zero ms acc rest h all = absurd (omega arith)
sasl_loop-put_all (suc fuel) [] acc rest h all = rw append-nil
sasl_loop-put_all (suc fuel) ([] ∷ ms) acc rest h all = absurd (all.0.0 refl)
sasl_loop-put_all (suc fuel) ((b ∷ bs) ∷ ms) acc rest h ((c, (u, z)), all) =
    let tail : Bytes = put_all put_cstr ms (0 ∷ rest) in
    rw (
      ne→== b 0 z.0,
      sasl_loop,
      find_nul-append (b ∷ bs) tail z,
      take_front (b ∷ bs) (0 ∷ tail),
      from_utf8-IsUtf8 (b ∷ bs) u,
      drop_cstr (b ∷ bs) tail,
      sasl_loop-put_all fuel ms (acc ++ ((b ∷ bs) ∷ [])) rest (omega arith) all,
      append_assoc acc ((b ∷ bs) ∷ []) ms,
    )
