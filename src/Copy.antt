-- ===== src/Copy.antt =====
-- crates/core/src/copy.rs: the rows of `COPY ... FROM STDIN BINARY`. The buffer of a row is cleared in front
-- of each row and split off behind it, so a row is the bytes that it appends.
pub mod Reader
pub mod RoundTrip
mod Tests
use babar.Prelude.{
  ℕ, ◌+◌, List, [], ◌∷◌, ◌++◌, Option, none, some, Bool, true, false, Result, ok, err, ◌>>=◌, ◌>>◌,
  map_ok, length, ltb, ◌==◌, if◌then◌else◌,
}
use babar.Rust.{be16, be32, ascii, u64_to_string}
use babar.Error.{Error, codec}
use babar.Codec.Interface.{Cell, Codec}

abbrev bad_format : (index format : ℕ) → Error
bad_format index format = codec (
    ascii "COPY FROM STDIN BINARY requires binary row codecs; column "
    ++ u64_to_string (index + 1)
    ++ ascii " uses format code "
    ++ u64_to_string format)

-- The loop over the columns, from an index. A format that is not declared is the text format.
unfoldable pub ensure_binary_copy_capable :
    (index : ℕ) (column_oids formats : List ℕ) → Result Error (Unit {0})
ensure_binary_copy_capable index [] formats = ok tt
ensure_binary_copy_capable index (oid ∷ oids) [] = err (bad_format index 0)
ensure_binary_copy_capable index (oid ∷ oids) (format ∷ formats) =
    let rest = ensure_binary_copy_capable (index + 1) oids formats in
    if format == 1 then rest else err (bad_format index format)

abbrev pub encode_field : Cell → Result Error (List ℕ)
encode_field none = ok (be32 0xffff_ffff)
encode_field (some bytes) =
    if ltb (length bytes) 0x8000_0000
    then ok (be32 (length bytes) ++ bytes)
    else err (
        codec (
          ascii "COPY field exceeds binary format limit: "
          ++ u64_to_string (length bytes)
          ++ ascii " bytes"))

-- The loop over the fields.
unfoldable pub put_fields : List Cell → Result Error (List ℕ)
put_fields [] = ok []
put_fields (field ∷ fields) = do
  bytes ← encode_field field
  rest ← put_fields fields
  ok (bytes ++ rest)

-- `BinaryCopyRow::encode_fields`.
unfoldable pub encode_fields : List Cell → Result Error (List ℕ)
encode_fields fields =
    if ltb (length fields) 0x8000
    then map_ok (λ bytes. be16 (length fields) ++ bytes) (put_fields fields)
    else err (codec (ascii "COPY row has too many columns: " ++ u64_to_string (length fields)))

abbrev pub copy_binary_header : List ℕ
copy_binary_header = ascii "PGCOPY" ++ (10 ∷ 0xff ∷ 13 ∷ 10 ∷ 0 ∷ []) ++ be32 0 ++ be32 0

abbrev pub copy_binary_trailer : List ℕ
copy_binary_trailer = be16 0xffff

module _ {T : Type 0} (c : Codec T) where
  abbrev check_fields : List Cell → Result Error (List ℕ)
  check_fields fields =
      if length fields == length c.oids
      then encode_fields fields
      else err (
          codec (
            ascii "COPY row encoder declared "
            ++ u64_to_string (length c.oids)
            ++ ascii " columns but produced "
            ++ u64_to_string (length fields)
            ++ ascii " fields"))

  -- `EncoderCopyRowEncoder::encode_row`.
  unfoldable pub encode_row : T → Result Error (List ℕ)
  encode_row value =
      ensure_binary_copy_capable 0 c.oids c.format_codes >> (c.encode value [] >>= check_fields)

  unfoldable pub encode_rows_loop : List T → Result Error (List (List ℕ))
  encode_rows_loop [] = ok (copy_binary_trailer ∷ [])
  encode_rows_loop (value ∷ rows) = do
    row ← encode_row value
    chunks ← encode_rows_loop rows
    ok (row ∷ chunks)

  -- `CopyIn::encode_rows`, `BinaryCopyPayload::encode`: the chunks.
  unfoldable pub encode_rows : List T → Result Error (List (List ℕ))
  encode_rows rows = map_ok (λ chunks. copy_binary_header ∷ chunks) (encode_rows_loop rows)
