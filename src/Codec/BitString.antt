-- ===== src/Codec/BitString.antt =====
-- crates/core/src/codec/bits.rs: `BitString`, packed bits with their number.
mod Tests
use babar.Prelude.{
  ℕ, zero, suc, ◌+◌, ◌-◌, ◌*◌, ◌/◌, ◌%◌, ◌^◌, ◌<◌, ◌≤◌, ◌≡◌, refl, List, [], ◌∷◌, ◌++◌, Option,
  none, some, Bool, false, Result, ok, err, ◌>>=◌, ok_or, length, ltb, leb, ◌==◌, if◌then◌else◌,
  get_elem?, arith, not,
}
use babar.Rust.{ascii, u64_to_string}
use babar.Error.{Error, codec}

pub record BitString : Type 0 where
  pub bytes : List ℕ
  pub bit_len : ℕ

abbrev last : List ℕ → Option ℕ
last [] = none
last (b ∷ []) = some b
last (b ∷ c ∷ bytes) = last (c ∷ bytes)

-- `last & mask` for the mask of the lowest `8 - trailing` bits.
abbrev check_last : (trailing last : ℕ) → BitString → Result Error BitString
check_last trailing last s =
    if last % 2 ^ (8 - trailing) == 0
    then ok s
    else err (codec (ascii "bit string: unused trailing bits must be zero"))

abbrev check_trailing : (trailing : ℕ) → BitString → Result Error BitString
check_trailing zero s = ok s
check_trailing (suc k) s =
    ok_or (last s.bytes) (codec (ascii "bit string: missing final byte")) >>= λ b.
    check_last (suc k) b s

unfoldable pub from_bytes : List ℕ → (bit_len : ℕ) → Result Error BitString
from_bytes bytes bit_len =
    if ltb (length bytes * 8) bit_len
    then err (
        codec (
          ascii "bit string: declared length "
          ++ u64_to_string bit_len
          ++ ascii " exceeds backing storage of "
          ++ u64_to_string (length bytes * 8)
          ++ ascii " bits"))
    else check_trailing (bit_len % 8) (record { bytes = bytes; bit_len = bit_len })

abbrev bit_of : (byte offset : ℕ) → Bool
bit_of byte offset = (byte / 2 ^ offset) % 2 == 1

-- `byte |= 1 << offset`.
abbrev set_bit : (byte offset : ℕ) → ℕ
set_bit byte offset = if bit_of byte offset then byte else byte + 2 ^ offset

abbrev set_bit_at : List ℕ → (index offset : ℕ) → List ℕ
set_bit_at [] index offset = []
set_bit_at (b ∷ bytes) zero offset = set_bit b offset ∷ bytes
set_bit_at (b ∷ bytes) (suc index) offset = b ∷ set_bit_at bytes index offset

abbrev zeros : ℕ → List ℕ
zeros zero = []
zeros (suc n) = 0 ∷ zeros n

abbrev invalid_character : List ℕ → Error
invalid_character shown =
    codec (ascii "bit string: invalid character " ++ shown ++ ascii "; expected only '0' or '1'")

-- The loop of `from_text`; `debug` is the format `{:?}` of a character.
unfoldable pub set_bits :
    (debug : ℕ → List ℕ) → (index : ℕ) → List ℕ → List ℕ → Result Error (List ℕ)
set_bits debug index bytes [] = ok bytes
set_bits debug index bytes (c ∷ text) =
    let unset = set_bits debug (index + 1) bytes text in
    let set = set_bits debug (index + 1) (set_bit_at bytes (index / 8) (7 - index % 8)) text in
    if c == b'0' then unset else if c == b'1' then set else err (invalid_character (debug c))

unfoldable pub from_text : (debug : ℕ → List ℕ) → List ℕ → Result Error BitString
from_text debug text = do
  bytes ← set_bits debug 0 (zeros ((length text + 7) / 8)) text
  from_bytes bytes (length text)

abbrev bit_in : Option ℕ → (offset : ℕ) → Option Bool
bit_in none offset = none
bit_in (some byte) offset = some (bit_of byte offset)

-- A byte out of range, where the code panics, is none as well; `from_bytes-get` shows that there is none.
unfoldable pub get : BitString → ℕ → Option Bool
get s index =
    if leb s.bit_len index then none else bit_in (get_elem? s.bytes (index / 8)) (7 - index % 8)

abbrev digit_of : Option Bool → ℕ
digit_of (some b) = if b then b'1' else b'0'
digit_of none = b'0'

abbrev digits_from : BitString → (index count : ℕ) → List ℕ
digits_from s index zero = []
digits_from s index (suc count) = digit_of (get s index) ∷ digits_from s (index + 1) count

unfoldable pub to_bit_text : BitString → List ℕ
to_bit_text s = digits_from s 0 s.bit_len

bit_in_range :
    (bytes : List ℕ) (i offset : ℕ)
    → i < length bytes
    → (b : Bool) × (bit_in (get_elem? bytes i) offset ≡ some b)
bit_in_range [] i offset h = absurd (omega (arith, h))
bit_in_range (b ∷ bytes) zero offset h = (bit_of b offset, refl)
bit_in_range (b ∷ bytes) (suc i) offset h = bit_in_range bytes i offset (omega (arith, h))

check_trailing_same : (trailing : ℕ) (s t : BitString) → check_trailing trailing s ≡ ok t → t ≡ s
check_trailing_same trailing s t h = ground (arith, last s.bytes)

-- A bit string that is accepted has the bytes and the length that it was given, and the length fits.
from_bytes_same :
    (bytes : List ℕ) (bit_len : ℕ) (s : BitString)
    → from_bytes bytes bit_len ≡ ok s
    → (s.bytes ≡ bytes) × (s.bit_len ≡ bit_len) × (bit_len ≤ length bytes * 8)
unfolding from_bytes
from_bytes_same bytes bit_len s h =
    ground
      (arith, check_trailing_same (bit_len % 8) (record { bytes = bytes; bit_len = bit_len }) s)

get_in_range :
    (s : BitString) (index : ℕ)
    → index < s.bit_len
    → s.bit_len ≤ length s.bytes * 8
    → (b : Bool) × (get s index ≡ some b)
unfolding get
get_in_range s index h fits =
    let (b, e) = bit_in_range s.bytes (index / 8) (7 - index % 8) (omega arith) in
    let below : leb s.bit_len index ≡ false = grind arith in (b, rw below e)

-- Every index below the length of an accepted bit string has a bit.
pub from_bytes-get :
    (bytes : List ℕ) (bit_len index : ℕ) (s : BitString)
    → from_bytes bytes bit_len ≡ ok s
    → index < bit_len
    → (b : Bool) × (get s index ≡ some b)
from_bytes-get bytes bit_len index s h i =
    let (same, count, fits) = from_bytes_same bytes bit_len s h in
    let stored : s.bit_len ≤ length s.bytes * 8 = rw (same, count) fits in
    get_in_range s index (omega (arith, count)) stored
