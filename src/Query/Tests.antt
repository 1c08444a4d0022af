-- ===== src/Query/Tests.antt =====
-- Fragments at concrete texts.
use babar.Prelude.{ℕ, ◌<◌, ◌≢◌, ◌≡◌, refl, List, [], ◌∷◌, ◌++◌, some, ok, All, arith}
use babar.Rust.{ascii}
use babar.Query.Fragment.{
  Encoder, Fragment, lit, bind_codec, plus, append_encoder, renumber_placeholders, renumber_loop,
}
use babar.Query.Pieces.{
  Piece, literal, number, render, shift, IsPlain, renumber_placeholders-render,
}
use babar.Query.Numbered.{IsNumbered, bind_codec-IsNumbered, plus-IsNumbered}

-- A codec of one parameter.
abbrev one_param : Encoder ℕ
one_param = record {
  encode = λ value params. ok (params ++ (some (value ∷ []) ∷ []));
  oids = 23 ∷ [];
  format_codes = 1 ∷ [];
}

abbrev where_id : Fragment (Unit {0} × ℕ)
where_id = bind_codec (lit (ascii "id=")) one_param

plain : (b : ℕ) → b < 0x80 → b ≢ b'$' → IsPlain b
plain b h d = (h, d)

id_text : All IsPlain (ascii "id=")
id_text = (
  plain b'i' (omega arith) (λ e. omega (arith, e)),
  (
    plain b'd' (omega arith) (λ e. omega (arith, e)),
    (plain b'=' (omega arith) (λ e. omega (arith, e)), tt),
  ),
)

where_id-IsNumbered : IsNumbered where_id
where_id-IsNumbered =
    bind_codec-IsNumbered (lit (ascii "id=")) one_param
      (literal (ascii "id=") ∷ [], refl, (id_text, tt), refl, refl) refl (omega arith)

plus-IsNumbered_example :
    (both : Fragment ((Unit {0} × ℕ) × (Unit {0} × ℕ))) × (plus where_id where_id ≡ some both)
    × IsNumbered both
unfolding bind_codec append_encoder
plus-IsNumbered_example =
    plus-IsNumbered where_id where_id where_id-IsNumbered where_id-IsNumbered refl (omega arith)

-- A letter outside of ASCII, of two bytes, comes out as four bytes when the placeholders are renumbered.
letter_garbled : renumber_placeholders (0xc3 ∷ 0xa9 ∷ []) 1 ≡ some (0xc3 ∷ 0x83 ∷ 0xc2 ∷ 0xa9 ∷ [])
unfolding renumber_placeholders renumber_loop
letter_garbled = refl

abbrev pieces : List Piece
pieces = number 1 ∷ literal (ascii ",") ∷ number 2 ∷ []

renumber_placeholders-render_example :
    renumber_placeholders (render pieces) 12 ≡ some (render (shift 12 pieces))
renumber_placeholders-render_example =
    renumber_placeholders-render 12 pieces
      (
        omega arith,
        refl,
        (((plain b',' (omega arith) (λ e. omega (arith, e)), tt), (omega arith, refl, tt))),
      )
      (omega arith, (omega arith, tt))
