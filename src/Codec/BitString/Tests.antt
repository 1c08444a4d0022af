-- ===== src/Codec/BitString/Tests.antt =====
-- crates/core/src/codec/bits.rs: bit strings at concrete inputs.
use babar.Prelude.{ℕ, ◌≡◌, refl, List, [], ◌∷◌, map_ok, ok}
use babar.Rust.{ascii}
use babar.Codec.BitString.{from_bytes, from_text, set_bits, get, to_bit_text}

abbrev shown : ℕ → List ℕ
shown c = c ∷ []

text_round_trip :
    map_ok to_bit_text (from_text shown (ascii "1010011101")) ≡ ok (ascii "1010011101")
unfolding from_text set_bits from_bytes to_bit_text get
text_round_trip = refl

trailing_zeros_kept :
    from_text shown (ascii "10100000") ≡ ok (record { bytes = 160 ∷ []; bit_len = 8 })
unfolding from_text set_bits from_bytes
trailing_zeros_kept = refl

-- The unused bits of the last stored byte alone are looked at.
unused_byte_accepted :
    from_bytes (255 ∷ 0 ∷ []) 1 ≡ ok (record { bytes = 255 ∷ 0 ∷ []; bit_len = 1 })
unfolding from_bytes
unused_byte_accepted = refl

unused_byte_lost : to_bit_text (record { bytes = 255 ∷ 0 ∷ []; bit_len = 1 }) ≡ ascii "1"
unfolding to_bit_text get
unused_byte_lost = refl
