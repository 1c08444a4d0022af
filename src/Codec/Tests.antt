-- ===== src/Codec/Tests.antt =====
-- Codecs at concrete values.
use babar.Prelude.{[], ◌∷◌, ◌≡◌, refl, none, some, ok}
use babar.Rust.{pos, IsI32, ascii, IsUtf8, from_utf8, is_utf8, utf8_from}
use babar.Codec.Interface.{IsLawful}
use babar.Codec.Integers.{int4, int2}
use babar.Codec.Scalars.{text, bytea, hex_bytes}
use babar.Codec.Lawful.{int4-IsLawful, text-IsLawful}
use babar.Codec.Nullable.{nullable, IsShown, nullable-IsLawful}
use babar.Codec.Tuple.{component, unit_codec, tuple, Both, unit_codec-IsLawful, component-IsLawful}

-- Four digits of text are taken for the four bytes of an int4.
four_digits : int4.decode (some (ascii "1234") ∷ []) ≡ ok (pos 825373492)
unfolding int4
four_digits = refl

-- A bytea whose bytes begin with the characters of the text form comes back as something else.
bytea_mistaken : bytea.decode (some (b'\\' ∷ b'x' ∷ b'0' ∷ b'0' ∷ []) ∷ []) ≡ ok (0 ∷ [])
unfolding bytea from_utf8 is_utf8 utf8_from hex_bytes
bytea_mistaken = refl

nullable-IsLawful_example : IsLawful (nullable int4) (IsShown int4 IsI32)
nullable-IsLawful_example = nullable-IsLawful int4 IsI32 int4-IsLawful

component-IsLawful_example :
    IsLawful (component int4 (component text unit_codec)) (Both IsI32 (Both IsUtf8 (λ u. Unit)))
component-IsLawful_example =
    component-IsLawful int4 (component text unit_codec) IsI32 (Both IsUtf8 (λ u. Unit))
      int4-IsLawful
      (component-IsLawful text unit_codec IsUtf8 (λ u. Unit) text-IsLawful unit_codec-IsLawful)

tuple_row :
    (tuple (component (nullable int2) (component text unit_codec))).decode
      (none ∷ some (ascii "a") ∷ [])
    ≡ ok (none, (ascii "a", tt))
unfolding tuple component nullable text unit_codec from_utf8 is_utf8 utf8_from int2
tuple_row = refl
