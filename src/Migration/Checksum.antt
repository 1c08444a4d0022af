-- ===== src/Migration/Checksum.antt =====
-- crates/core/src/migration/checksum.rs: the digest of a script, in hexadecimal. The digest itself is
-- computed by the sha2 crate.
use babar.Prelude.{
  ℕ, ◌+◌, ◌-◌, ◌*◌, ◌/◌, ◌%◌, ◌<◌, ◌≡◌, refl, List, [], ◌∷◌, Option, none, some, Bool, true, ◌&&◌,
  ◌||◌, Result, ok, err, length, all, ltb, leb, ◌==◌, if◌then◌else◌, arith, All,
}
use babar.Rust.{IsByte, is_digit}
use babar.Migration.Errors.{Text, MigrationError, invalid_checksum}

abbrev pub MigrationChecksum : Type 0
MigrationChecksum = List ℕ

-- `u8::is_ascii_hexdigit`.
abbrev is_ascii_hexdigit : ℕ → Bool
is_ascii_hexdigit c = is_digit c || leb b'a' c && leb c b'f' || leb b'A' c && leb c b'F'

-- `char::to_digit(16)`.
abbrev to_digit : ℕ → Option ℕ
to_digit c =
    if is_digit c
    then some (c - b'0')
    else if leb b'a' c && leb c b'f'
    then some (c - b'a' + 10)
    else if leb b'A' c && leb c b'F'
    then some (c - b'A' + 10)
    else none

-- `u8::from_str_radix(_, 16)` on two characters; neither is a sign here.
abbrev two_digits : Option ℕ → Option ℕ → Option ℕ
two_digits (some x) (some y) = some (x * 16 + y)
two_digits x y = none

abbrev put_byte : Option ℕ → Option (List ℕ) → Option (List ℕ)
put_byte (some x) (some bytes) = some (x ∷ bytes)
put_byte x bytes = none

-- The loop over the slots.
unfoldable pub parse_slots : Text → Option (List ℕ)
parse_slots (a ∷ b ∷ hex) = put_byte (two_digits (to_digit a) (to_digit b)) (parse_slots hex)
parse_slots hex = some []

abbrev slots_result : Text → Option (List ℕ) → Result MigrationError MigrationChecksum
slots_result hex none = err (invalid_checksum hex)
slots_result hex (some bytes) = ok bytes

unfoldable pub parse_checksum : Text → Result MigrationError MigrationChecksum
parse_checksum hex =
    if length hex == 64 && all is_ascii_hexdigit hex
    then slots_result hex (parse_slots hex)
    else err (invalid_checksum hex)

abbrev hex_digit : ℕ → ℕ
hex_digit n = if ltb n 10 then b'0' + n else b'a' + (n - 10)

-- Each byte by `{byte:02x}`.
unfoldable pub to_hex : MigrationChecksum → Text
to_hex [] = []
to_hex (x ∷ bytes) = hex_digit (x / 16) ∷ hex_digit (x % 16) ∷ to_hex bytes

hex_digit-is_ascii_hexdigit : (n : ℕ) → n < 16 → is_ascii_hexdigit (hex_digit n) ≡ true
hex_digit-is_ascii_hexdigit n h = ground arith

to_digit-hex_digit : (n : ℕ) → n < 16 → to_digit (hex_digit n) ≡ some n
to_digit-hex_digit n h = ground arith

two_digits-hex_digit :
    (x : ℕ)
    → IsByte x
    → two_digits (to_digit (hex_digit (x / 16))) (to_digit (hex_digit (x % 16))) ≡ some x
two_digits-hex_digit x h =
    let e : x / 16 * 16 + x % 16 ≡ x = omega arith in
    rw (to_digit-hex_digit (x / 16) (omega arith), to_digit-hex_digit (x % 16) (omega arith), e)

parse_slots-to_hex : (bytes : List ℕ) → All IsByte bytes → parse_slots (to_hex bytes) ≡ some bytes
unfolding parse_slots to_hex
parse_slots-to_hex [] h = refl
parse_slots-to_hex (x ∷ bytes) (b, h) = rw (two_digits-hex_digit x b, parse_slots-to_hex bytes h)

length-to_hex : (bytes : List ℕ) → length (to_hex bytes) ≡ 2 * length bytes
unfolding to_hex
length-to_hex [] = refl
length-to_hex (x ∷ bytes) = omega (arith, length-to_hex bytes)

all-to_hex : (bytes : List ℕ) → All IsByte bytes → all is_ascii_hexdigit (to_hex bytes) ≡ true
unfolding to_hex
all-to_hex [] h = refl
all-to_hex (x ∷ bytes) (b, h) = rw (
  hex_digit-is_ascii_hexdigit (x / 16) (omega arith),
  hex_digit-is_ascii_hexdigit (x % 16) (omega arith),
  all-to_hex bytes h,
)

-- The hexadecimal form of a digest of 32 bytes parses to the digest.
pub parse_checksum-to_hex :
    (digest : MigrationChecksum)
    → length digest ≡ 32
    → All IsByte digest
    → parse_checksum (to_hex digest) ≡ ok digest
unfolding parse_checksum
parse_checksum-to_hex digest l h =
    let n : length (to_hex digest) ≡ 64 = omega (arith, length-to_hex digest) in
    rw (n, all-to_hex digest h, parse_slots-to_hex digest h)
