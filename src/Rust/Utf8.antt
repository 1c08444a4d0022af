-- ===== src/Rust/Utf8.antt =====
-- `std::str::from_utf8`: the well-formed byte sequences of the Unicode standard (table 3-7).
use Prim.Native.Char.{code}
use Prim.Native.String.{String}
use babar.Prelude.{
  ◌⊎◌, ℕ, zero, suc, ◌≡◌, List, [], ◌∷◌, Option, none, some, Bool, true, false, ◌&&◌, ltb, leb,
  ◌==◌, if◌then◌else◌, arith,
}

-- What a first byte promises: how many bytes follow, and the range of the next one.
abbrev pub lead : ℕ → Option (ℕ × ℕ × ℕ)
lead b =
    if ltb b 0x80
    then some (0, 0x80, 0xbf)
    else if ltb b 0xc2
    then none
    else if ltb b 0xe0
    then some (1, 0x80, 0xbf)
    else if b == 0xe0
    then some (2, 0xa0, 0xbf)
    else if b == 0xed
    then some (2, 0x80, 0x9f)
    else if ltb b 0xf0
    then some (2, 0x80, 0xbf)
    else if b == 0xf0
    then some (3, 0x90, 0xbf)
    else if ltb b 0xf4
    then some (3, 0x80, 0xbf)
    else if b == 0xf4
    then some (3, 0x80, 0x8f)
    else none

-- The bytes that a character still wants, the range of the next of them, and the text left.
unfoldable pub utf8_from : ℕ → ℕ → ℕ → List ℕ → Bool
utf8_from zero lo hi [] = true
utf8_from (suc n) lo hi [] = false
utf8_from zero lo hi (b ∷ bs) = elim (lead b) [ none ↦ false | some (n, l, h) ↦ utf8_from n l h bs ]
utf8_from (suc n) lo hi (b ∷ bs) = leb lo b && leb b hi && utf8_from n 0x80 0xbf bs

unfoldable pub is_utf8 : List ℕ → Bool
unfolding utf8_from
is_utf8 bs = utf8_from 0 0x80 0xbf bs

unfoldable pub from_utf8 : List ℕ → Option (List ℕ)
from_utf8 bs = if is_utf8 bs then some bs else none

abbrev pub IsUtf8 : List ℕ → Type 0
IsUtf8 s = is_utf8 s ≡ true

pub from_utf8-IsUtf8 : (s : List ℕ) → IsUtf8 s → from_utf8 s ≡ some s
unfolding from_utf8
from_utf8-IsUtf8 s h = ground arith

-- A text is its own bytes.
pub from_utf8_same : (s : List ℕ) → (from_utf8 s ≡ some s) ⊎ (from_utf8 s ≡ none)
unfolding from_utf8
from_utf8_same s = ground arith

-- The bytes of a literal in ASCII.
abbrev pub ascii : String → List ℕ
ascii (String.◌∷◌ first text) = code first ∷ ascii text
ascii String.[] = []

-- `==` on two byte strings.
abbrev pub equals : List ℕ → List ℕ → Bool
equals [] [] = true
equals (a ∷ xs) (b ∷ ys) = a == b && equals xs ys
equals xs ys = false
