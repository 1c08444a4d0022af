-- ===== src/Copy/RoundTrip.antt =====
-- A COPY payload, read back.
use babar.Prelude.{
  ℕ, ◌+◌, ◌<◌, ◌≡◌, refl, List, [], ◌∷◌, ◌++◌, some, false, Result, ok, ◌>>=◌, length, All, arith,
  ◌∙◌, sym, ==_refl,
}
use babar.Error.{Error}
use babar.Codec.Interface.{Cell, Codec, IsLawful}
use babar.Copy.{
  ensure_binary_copy_capable, copy_binary_header, copy_binary_trailer, encode_row, encode_rows_loop,
  encode_rows,
}
use babar.Copy.Reader.{
  IsSmall, read_tuple, is_trailer, read_tuples, concat_chunks, read_copy, encode_fields_lem,
}

abbrev pub IsBinary : ℕ → Type 0
IsBinary format = format ≡ 1

-- The values of the rows of a table.
unfoldable pub decode_all : {T : Type 0} → Codec T → List (List Cell) → Result Error (List T)
decode_all c [] = ok []
decode_all c (cells ∷ table) = do v ← c.decode cells; vs ← decode_all c table; ok (v ∷ vs)

ensure_lem :
    (index : ℕ) (oids formats : List ℕ)
    → length oids ≡ length formats
    → All IsBinary formats
    → ensure_binary_copy_capable index oids formats ≡ ok tt
unfolding ensure_binary_copy_capable
ensure_lem index [] formats e h = refl
ensure_lem index (o ∷ oids) [] e h = ground (arith, e)
ensure_lem index (o ∷ oids) (f ∷ formats) e (h, hs) =
    rw (h) (ensure_lem (index + 1) oids formats (omega (arith, e)) hs)

module _ {T : Type 0} (c : Codec T) (IsValue : T → Type 0) (lawful : IsLawful c IsValue)
    (binary : All IsBinary c.format_codes) (few : c.n_columns < 0x8000)
    (small : (v : T)
      → IsValue v
      → (cells : List Cell) → c.encode v [] ≡ ok cells
      → All IsSmall cells) where
  encode_row_lem :
      (v : T)
      → IsValue v
      → (row : List ℕ) × (cells : List Cell) × (encode_row c v ≡ ok row)
        × (c.decode cells ≡ ok v)
        × ((rest : List ℕ) → read_tuple (row ++ rest) ≡ some (cells, rest))
        × ((rest : List ℕ) → is_trailer (row ++ rest) ≡ false)
  unfolding encode_row
  encode_row_lem v h =
      let (cells, e, enc, dec) = lawful.round_trip v h in
      let (row, f, read, more) =
        encode_fields_lem cells (omega (arith, e, few)) (small v h cells (enc [])) in
      let n : length cells ≡ length c.oids = e ∙ sym lawful.oids_length in
      let b : ensure_binary_copy_capable 0 c.oids c.format_codes ≡ ok tt =
        ensure_lem 0 c.oids c.format_codes (lawful.oids_length ∙ sym lawful.formats_length)
          binary in
      (row, cells, rw (b, enc [], n, ==_refl (length c.oids)) f, dec, read, more)

  rows_lem :
      (rows : List T)
      → All IsValue rows
      → (chunks : List (List ℕ)) × (table : List (List Cell)) × (encode_rows_loop c rows
          ≡ ok chunks)
        × (read_tuples (length rows) (concat_chunks chunks) ≡ some table)
        × (decode_all c table ≡ ok rows)
  unfolding encode_rows_loop read_tuples decode_all
  rows_lem [] h = (copy_binary_trailer ∷ [], [], refl, refl, refl)
  rows_lem (v ∷ rows) (h, hs) =
      let (row, cells, e, dec, read, more) = encode_row_lem v h in
      let (chunks, table, e', read', dec') = rows_lem rows hs in
      let rest = concat_chunks chunks in
      (
        row ∷ chunks,
        cells ∷ table,
        rw (e, e') refl,
        rw (read_tuples, more rest, read rest, read') refl,
        rw (dec, dec') refl,
      )

  -- Rows of values of a lawful codec of binary format, with fewer than 2 ^ 15 columns and cells of fewer
  -- than 2 ^ 31 bytes, are all encoded, and a reader of the binary COPY format gets from the chunks one
  -- tuple for each row, in order, which the codec decodes to that row.
  pub encode_rows_lem :
      (rows : List T)
      → All IsValue rows
      → (chunks : List (List ℕ)) × (table : List (List Cell)) × (encode_rows c rows ≡ ok chunks)
        × (read_copy (length rows) chunks ≡ some table)
        × (decode_all c table ≡ ok rows)
  unfolding encode_rows
  encode_rows_lem rows h =
      let (chunks, table, e, read, dec) = rows_lem rows h in
      (copy_binary_header ∷ chunks, table, rw (e) refl, read, dec)
