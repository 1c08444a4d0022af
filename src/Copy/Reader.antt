-- ===== src/Copy/Reader.antt =====
-- What a reader of the binary COPY format gets from the chunks that are sent.
use babar.Prelude.{
  ℕ, zero, suc, ◌<◌, ◌≡◌, refl, List, [], ◌∷◌, ◌++◌, append_assoc, Option, none, some, Bool, true,
  false, ok, length, take, drop, take_front, drop_front, All, ltb, ◌==◌, if◌then◌else◌, arith,
  lt→ltb, le→ltb, length-append, ne→==,
}
use babar.Rust.{equals, be16, be32, from_be16, from_be32, from_be16-be16, from_be32-be32}
use babar.Codec.Interface.{Cell}
use babar.Copy.{encode_field, put_fields, encode_fields}

-- The format, as PostgreSQL documents it: a signature, a word of flags, the length of an extension;
-- then tuples, each a count of fields and the fields, a length of -1 for NULL; and -1 as a count at the end.
abbrev cell_of_length : ℕ → List ℕ → Option (Cell × List ℕ)
cell_of_length n bytes =
    if n == 0xffff_ffff
    then some (none, bytes)
    else if ltb (length bytes) n
    then none
    else some (some (take n bytes), drop n bytes)

abbrev pub read_cell : List ℕ → Option (Cell × List ℕ)
read_cell (a ∷ b ∷ c ∷ d ∷ bytes) = cell_of_length (from_be32 a b c d) bytes
read_cell bytes = none

unfoldable pub read_cells : ℕ → List ℕ → Option (List Cell × List ℕ)
read_cells zero bytes = some ([], bytes)
read_cells (suc n) bytes = elim (read_cell bytes) [
  | none ↦ none
  | some (cell, rest) ↦ elim (read_cells n rest) [
    | none ↦ none
    | some (cells, rest') ↦ some (cell ∷ cells, rest')
  ]
]

abbrev pub read_tuple : List ℕ → Option (List Cell × List ℕ)
read_tuple (a ∷ b ∷ bytes) = read_cells (from_be16 a b) bytes
read_tuple bytes = none

abbrev pub is_trailer : List ℕ → Bool
is_trailer (a ∷ b ∷ []) = from_be16 a b == 0xffff
is_trailer bytes = false

-- The tuples, for at most so many of them.
unfoldable pub read_tuples : (at_most : ℕ) → List ℕ → Option (List (List Cell))
read_tuples zero bytes = if is_trailer bytes then some [] else none
read_tuples (suc n) bytes = elim (is_trailer bytes) [
  | true ↦ some []
  | false ↦ elim (read_tuple bytes) [
    | none ↦ none
    | some (cells, rest) ↦ elim (read_tuples n rest) [
      | none ↦ none
      | some more ↦ some (cells ∷ more)
    ]
  ]
]

-- The signature PGCOPY\n\377\r\n\0, no flags and no extension.
abbrev pub documented_header : List ℕ
documented_header =
    0x50 ∷ 0x47 ∷ 0x43 ∷ 0x4f ∷ 0x50 ∷ 0x59 ∷ 0x0a ∷ 0xff ∷ 0x0d ∷ 0x0a ∷ 0x00 ∷ 0 ∷ 0 ∷ 0 ∷ 0 ∷ 0
    ∷ 0 ∷ 0 ∷ 0 ∷ []

abbrev signed_tuples : (at_most : ℕ) → List ℕ → Option (List (List Cell))
signed_tuples n bytes =
    if equals (take 19 bytes) documented_header then read_tuples n (drop 19 bytes) else none

abbrev pub concat_chunks : List (List ℕ) → List ℕ
concat_chunks [] = []
concat_chunks (chunk ∷ chunks) = chunk ++ concat_chunks chunks

-- What the server reads from all chunks.
abbrev pub read_copy : (at_most : ℕ) → List (List ℕ) → Option (List (List Cell))
read_copy n chunks = signed_tuples n (concat_chunks chunks)

-- A field that the format has room for.
abbrev pub IsSmall : Cell → Type 0
IsSmall none = Unit
IsSmall (some bytes) = length bytes < 0x8000_0000

encode_field_lem :
    (cell : Cell)
    → IsSmall cell
    → (bytes : List ℕ) × (encode_field cell ≡ ok bytes)
      × ((rest : List ℕ) → read_cell (bytes ++ rest) ≡ some (cell, rest))
encode_field_lem none h = (be32 0xffff_ffff, refl, λ rest. refl)
encode_field_lem (some bytes) h =
    let n = length bytes in
    (
      be32 n ++ bytes,
      rw (lt→ltb n 0x8000_0000 h) refl,
      λ rest.
          rw
            (
              from_be32-be32 n (omega (arith, h)),
              ne→== n 0xffff_ffff (λ e. omega (arith, h, e)),
              le→ltb (length (bytes ++ rest)) n (omega (arith, length-append bytes rest)),
              take_front bytes rest,
              drop_front bytes rest,
            )
            refl,
    )

put_fields_lem :
    (cells : List Cell)
    → All IsSmall cells
    → (bytes : List ℕ) × (put_fields cells ≡ ok bytes)
      × ((rest : List ℕ) → read_cells (length cells) (bytes ++ rest) ≡ some (cells, rest))
unfolding put_fields read_cells
put_fields_lem [] h = ([], refl, λ rest. refl)
put_fields_lem (cell ∷ cells) (h, hs) =
    let (xs, e, f) = encode_field_lem cell h in
    let (ys, e', f') = put_fields_lem cells hs in
    (
      xs ++ ys,
      rw (e, e') refl,
      λ rest. rw (append_assoc xs ys rest, read_cells, f (ys ++ rest), f' rest) refl,
    )

not_trailer : (n : ℕ) (rest : List ℕ) → n < 0x8000 → is_trailer (be16 n ++ rest) ≡ false
not_trailer n [] h =
    rw (from_be16-be16 n (omega (arith, h))) (ne→== n 0xffff (λ e. omega (arith, h, e)))
not_trailer n (b ∷ rest) h = refl

pub encode_fields_lem :
    (cells : List Cell)
    → length cells < 0x8000
    → All IsSmall cells
    → (bytes : List ℕ) × (encode_fields cells ≡ ok bytes)
      × ((rest : List ℕ) → read_tuple (bytes ++ rest) ≡ some (cells, rest))
      × ((rest : List ℕ) → is_trailer (bytes ++ rest) ≡ false)
unfolding encode_fields
encode_fields_lem cells h hs =
    let n = length cells in
    let (bytes, e, f) = put_fields_lem cells hs in
    (
      be16 n ++ bytes,
      rw (lt→ltb n 0x8000 h, e) refl,
      λ rest. rw (from_be16-be16 n (omega (arith, h))) (f rest),
      λ rest. not_trailer n (bytes ++ rest) h,
    )
