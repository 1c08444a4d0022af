-- ===== src/Rust/Int.antt =====
-- Machine integers: two's complement and big-endian bytes (`to_be_bytes`, `from_be_bytes`, and the
-- `get_*` and `put_*` of buffers).
use babar.Prelude.{
  ◌++◌, ℕ, ◌+◌, ◌-◌, ◌*◌, ◌/◌, ◌%◌, ◌<◌, ◌≡◌, List, [], ◌∷◌, ltb, if◌then◌else◌, arith,
}

-- `negsuc n` is -(n + 1).
pub data ℤ : Type 0 where
  pos : ℕ → ℤ
  negsuc : ℕ → ℤ

-- The value of a two's complement bit pattern of 16, 32 or 64 bits.
abbrev pub to_i16 : ℕ → ℤ
to_i16 n = if ltb n 0x8000 then pos n else negsuc (0xffff - n)

abbrev pub to_i32 : ℕ → ℤ
to_i32 n = if ltb n 0x8000_0000 then pos n else negsuc (0xffff_ffff - n)

abbrev pub to_i64 : ℕ → ℤ
to_i64 n = if ltb n 0x8000_0000_0000_0000 then pos n else negsuc (0xffff_ffff_ffff_ffff - n)

-- The bit pattern of a value.
abbrev pub of_i16 : ℤ → ℕ
of_i16 (pos n) = n
of_i16 (negsuc n) = 0xffff - n

abbrev pub of_i32 : ℤ → ℕ
of_i32 (pos n) = n
of_i32 (negsuc n) = 0xffff_ffff - n

abbrev pub of_i64 : ℤ → ℕ
of_i64 (pos n) = n
of_i64 (negsuc n) = 0xffff_ffff_ffff_ffff - n

abbrev pub IsI16 : ℤ → Type 0
IsI16 (pos n) = n < 0x8000
IsI16 (negsuc n) = n < 0x8000

abbrev pub IsI32 : ℤ → Type 0
IsI32 (pos n) = n < 0x8000_0000
IsI32 (negsuc n) = n < 0x8000_0000

abbrev pub IsI64 : ℤ → Type 0
IsI64 (pos n) = n < 0x8000_0000_0000_0000
IsI64 (negsuc n) = n < 0x8000_0000_0000_0000

abbrev pub IsByte : ℕ → Type 0
IsByte b = b < 256

abbrev pub IsU32 : ℕ → Type 0
IsU32 n = n < 0x1_0000_0000

pub to_i16-of_i16 : (z : ℤ) → IsI16 z → to_i16 (of_i16 z) ≡ z
to_i16-of_i16 (pos n) h = ground arith
to_i16-of_i16 (negsuc n) h = ground arith

pub to_i32-of_i32 : (z : ℤ) → IsI32 z → to_i32 (of_i32 z) ≡ z
to_i32-of_i32 (pos n) h = ground arith
to_i32-of_i32 (negsuc n) h = ground arith

pub to_i64-of_i64 : (z : ℤ) → IsI64 z → to_i64 (of_i64 z) ≡ z
to_i64-of_i64 (pos n) h = ground arith
to_i64-of_i64 (negsuc n) h = ground arith

pub of_i16_bound : (z : ℤ) → IsI16 z → of_i16 z < 0x1_0000
of_i16_bound (pos n) h = omega arith
of_i16_bound (negsuc n) h = omega arith

pub of_i32_bound : (z : ℤ) → IsI32 z → of_i32 z < 0x1_0000_0000
of_i32_bound (pos n) h = omega arith
of_i32_bound (negsuc n) h = omega arith

pub of_i64_bound : (z : ℤ) → IsI64 z → of_i64 z < 0x1_0000_0000_0000_0000
of_i64_bound (pos n) h = omega arith
of_i64_bound (negsuc n) h = omega arith

abbrev pub from_be16 : ℕ → ℕ → ℕ
from_be16 a b = a * 256 + b

abbrev pub from_be32 : ℕ → ℕ → ℕ → ℕ → ℕ
from_be32 a b c d = ((a * 256 + b) * 256 + c) * 256 + d

abbrev pub be16 : ℕ → List ℕ
be16 n = (n / 256 % 256) ∷ (n % 256) ∷ []

abbrev pub be32 : ℕ → List ℕ
be32 n = (n / 0x100_0000 % 256) ∷ (n / 0x1_0000 % 256) ∷ (n / 256 % 256) ∷ (n % 256) ∷ []

pub from_be16-be16 : (n : ℕ) → n < 0x1_0000 → from_be16 (n / 256 % 256) (n % 256) ≡ n
from_be16-be16 n h = omega arith

pub from_be32-be32 :
    (n : ℕ)
    → n < 0x1_0000_0000
    → from_be32 (n / 0x100_0000 % 256) (n / 0x1_0000 % 256) (n / 256 % 256) (n % 256) ≡ n
from_be32-be32 n h = omega arith

abbrev pub from_be64 : ℕ → ℕ → ℕ → ℕ → ℕ → ℕ → ℕ → ℕ → ℕ
from_be64 a b c d e f g h = from_be32 a b c d * 0x1_0000_0000 + from_be32 e f g h

abbrev pub be64 : ℕ → List ℕ
be64 n = be32 (n / 0x1_0000_0000) ++ be32 (n % 0x1_0000_0000)

pub from_be64-be64 :
    (n : ℕ)
    → n < 0x1_0000_0000_0000_0000
    → from_be64
        (n / 0x1_0000_0000 / 0x100_0000 % 256)
        (n / 0x1_0000_0000 / 0x1_0000 % 256)
        (n / 0x1_0000_0000 / 256 % 256)
        (n / 0x1_0000_0000 % 256)
        (n % 0x1_0000_0000 / 0x100_0000 % 256)
        (n % 0x1_0000_0000 / 0x1_0000 % 256)
        (n % 0x1_0000_0000 / 256 % 256)
        (n % 0x1_0000_0000 % 256)
      ≡ n
from_be64-be64 n h =
    let a = from_be32-be32 (n / 0x1_0000_0000) (omega arith) in
    let b = from_be32-be32 (n % 0x1_0000_0000) (omega arith) in omega (arith, a, b)
