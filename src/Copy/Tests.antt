-- ===== src/Copy/Tests.antt =====
-- Payloads at concrete rows.
use babar.Prelude.{ℕ, ◌≡◌, refl, List, [], ◌∷◌, none, some, ok, All, arith, ok-injective, subst}
use babar.Rust.{ℤ, pos, negsuc, IsI32, ascii}
use babar.Codec.Interface.{Cell}
use babar.Codec.Integers.{int4}
use babar.Codec.Scalars.{text}
use babar.Codec.Nullable.{nullable}
use babar.Codec.Tuple.{component, unit_codec, tuple}
use babar.Codec.Lawful.{int4-IsLawful}
use babar.Copy.{
  encode_rows, encode_rows_loop, encode_row, encode_fields, put_fields, ensure_binary_copy_capable,
  copy_binary_header, copy_binary_trailer,
}
use babar.Copy.Reader.{IsSmall, read_copy}
use babar.Copy.RoundTrip.{decode_all, encode_rows_lem}

two_rows :
    encode_rows
      (tuple (component int4 (component (nullable text) unit_codec)))
      ((pos 7, (some (ascii "hi"), tt)) ∷ (pos 9, (none, tt)) ∷ [])
    ≡ ok (
        copy_binary_header
        ∷ (0 ∷ 2 ∷ 0 ∷ 0 ∷ 0 ∷ 4 ∷ 0 ∷ 0 ∷ 0 ∷ 7 ∷ 0 ∷ 0 ∷ 0 ∷ 2 ∷ b'h' ∷ b'i' ∷ [])
        ∷ (0 ∷ 2 ∷ 0 ∷ 0 ∷ 0 ∷ 4 ∷ 0 ∷ 0 ∷ 0 ∷ 9 ∷ 255 ∷ 255 ∷ 255 ∷ 255 ∷ [])
        ∷ copy_binary_trailer
        ∷ [])
unfolding encode_rows encode_rows_loop encode_row encode_fields put_fields
    ensure_binary_copy_capable tuple component nullable text int4 unit_codec
two_rows = refl

int4-IsSmall :
    (v : ℤ) → IsI32 v → (cells : List Cell) → int4.encode v [] ≡ ok cells → All IsSmall cells
unfolding int4
int4-IsSmall v h cells e = subst (All IsSmall) (ok-injective e) (omega arith, tt)

encode_rows_lem_example :
    (chunks : List (List ℕ)) × (table : List (List Cell)) × (encode_rows int4
        (pos 5 ∷ negsuc 0 ∷ [])
      ≡ ok chunks)
    × (read_copy 2 chunks ≡ some table)
    × (decode_all int4 table ≡ ok (pos 5 ∷ negsuc 0 ∷ []))
unfolding int4
encode_rows_lem_example =
    encode_rows_lem int4 IsI32 int4-IsLawful (refl, tt) (omega arith) int4-IsSmall
      (pos 5 ∷ negsuc 0 ∷ []) (omega arith, (omega arith, tt))
