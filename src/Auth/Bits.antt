-- ===== src/Auth/Bits.antt =====
-- Exclusive and inclusive or of bytes, bit by bit, and of byte strings.
use babar.Prelude.{
  ℕ, zero, suc, ◌+◌, ◌*◌, ◌/◌, ◌%◌, ◌^◌, ◌<◌, ◌≡◌, refl, List, [], ◌∷◌, Bool, true, false, length,
  All, ◌==◌, if◌then◌else◌, arith, ==_iff, ==_refl, Bool-cases, inl, inr,
}
use babar.Rust.{IsByte}

unfoldable pub xor_bits : (bits a b : ℕ) → ℕ
xor_bits zero a b = 0
xor_bits (suc k) a b = (a + b) % 2 + 2 * xor_bits k (a / 2) (b / 2)

unfoldable pub or_bits : (bits a b : ℕ) → ℕ
or_bits zero a b = 0
or_bits (suc k) a b = (if a % 2 + b % 2 == 0 then 0 else 1) + 2 * or_bits k (a / 2) (b / 2)

abbrev pub xor : ℕ → ℕ → ℕ
xor a b = xor_bits 8 a b

-- `^=` on the bytes of two strings, as far as both go; the rest of the first stays.
abbrev pub xor_bytes : List ℕ → List ℕ → List ℕ
xor_bytes [] ys = []
xor_bytes (x ∷ xs) [] = x ∷ xs
xor_bytes (x ∷ xs) (y ∷ ys) = xor x y ∷ xor_bytes xs ys

xor_bits_cancel : (k a b : ℕ) → a < 2 ^ k → xor_bits k (xor_bits k a b) b ≡ a
unfolding xor_bits
xor_bits_cancel zero a b h = omega arith
xor_bits_cancel (suc k) a b h =
    let q = xor_bits k (a / 2) (b / 2) in
    let l : ((a + b) % 2 + 2 * q) / 2 ≡ q = omega arith in
    let r = xor_bits_cancel k (a / 2) (b / 2) (omega arith) in rw (l, r) (omega arith)

-- Taken twice, the exclusive or gives the first byte back.
pub xor_bytes_cancel :
    (xs ys : List ℕ) → All IsByte xs → length xs ≡ length ys → xor_bytes (xor_bytes xs ys) ys ≡ xs
xor_bytes_cancel [] ys h e = refl
xor_bytes_cancel (x ∷ xs) [] h e = refl
xor_bytes_cancel (x ∷ xs) (y ∷ ys) (h, hs) e =
    rw (xor_bits_cancel 8 x y h, xor_bytes_cancel xs ys hs (omega (arith, e))) refl

xor_bits_zero : (k a b : ℕ) → a < 2 ^ k → b < 2 ^ k → xor_bits k a b ≡ 0 → a ≡ b
unfolding xor_bits
xor_bits_zero zero a b h g e = omega arith
xor_bits_zero (suc k) a b h g e =
    let r = xor_bits_zero k (a / 2) (b / 2) (omega arith) (omega arith) (omega (arith, e)) in
    omega (arith, e, r)

xor_bits_self : (k a : ℕ) → xor_bits k a a ≡ 0
unfolding xor_bits
xor_bits_self zero a = refl
xor_bits_self (suc k) a = omega (arith, xor_bits_self k (a / 2))

or_bits_zero : (k a b : ℕ) → a < 2 ^ k → b < 2 ^ k → or_bits k a b ≡ 0 → (a ≡ 0) × (b ≡ 0)
unfolding or_bits
or_bits_zero zero a b h g e = (omega arith, omega arith)
or_bits_zero (suc k) a b h g e =
    let (x, y) = or_bits_zero k (a / 2) (b / 2) (omega arith) (omega arith) (ground (arith, e)) in
    (ground (arith, e, x, y), ground (arith, e, x, y))

or_bits_both : (k : ℕ) → or_bits k 0 0 ≡ 0
unfolding or_bits
or_bits_both zero = refl
or_bits_both (suc k) = omega (arith, or_bits_both k)

xor_bits_bound : (k a b : ℕ) → xor_bits k a b < 2 ^ k
unfolding xor_bits
xor_bits_bound zero a b = omega arith
xor_bits_bound (suc k) a b = omega (arith, xor_bits_bound k (a / 2) (b / 2))

or_bits_bound : (k a b : ℕ) → or_bits k a b < 2 ^ k
unfolding or_bits
or_bits_bound zero a b = omega arith
or_bits_bound (suc k) a b = ground (arith, or_bits_bound k (a / 2) (b / 2))

-- The loop of `constant_time_eq`: the differences of the bytes, or-ed together.
abbrev pub differences : (diff : ℕ) → List ℕ → List ℕ → ℕ
differences diff [] ys = diff
differences diff (x ∷ xs) [] = diff
differences diff (x ∷ xs) (y ∷ ys) = differences (or_bits 8 diff (xor x y)) xs ys

unfoldable pub constant_time_eq : List ℕ → List ℕ → Bool
constant_time_eq xs ys = if length xs == length ys then differences 0 xs ys == 0 else false

differences_self : (xs : List ℕ) → differences 0 xs xs ≡ 0
differences_self [] = refl
differences_self (x ∷ xs) = rw (xor_bits_self 8 x, or_bits_both 8) (differences_self xs)

differences_zero :
    (diff : ℕ) (xs ys : List ℕ)
    → diff < 256
    → All IsByte xs
    → All IsByte ys
    → length xs ≡ length ys
    → differences diff xs ys ≡ 0
    → (diff ≡ 0) × (xs ≡ ys)
differences_zero diff [] [] d h g e z = (z, refl)
differences_zero diff [] (y ∷ ys) d h g e z = ground (arith, e)
differences_zero diff (x ∷ xs) [] d h g e z = ground (arith, e)
differences_zero diff (x ∷ xs) (y ∷ ys) d (h, hs) (g, gs) e z =
    let (w, r) =
      differences_zero (or_bits 8 diff (xor x y)) xs ys (or_bits_bound 8 diff (xor x y)) hs gs
        (omega (arith, e)) z in
    let (a, b) = or_bits_zero 8 diff (xor x y) d (xor_bits_bound 8 x y) w in
    (a, rw (xor_bits_zero 8 x y h g b, r) refl)

-- On byte strings the comparison says whether they are equal.
pub constant_time_eq_lem :
    (xs ys : List ℕ) → All IsByte xs → All IsByte ys → constant_time_eq xs ys ≡ true → xs ≡ ys
unfolding constant_time_eq
constant_time_eq_lem xs ys h g e = elim (Bool-cases (length xs == length ys)) [
  | inl l ↦
      let z = (==_iff (differences 0 xs ys) 0).0 (ground (arith, e, l)) in
      (differences_zero 0 xs ys (omega arith) h g ((==_iff (length xs) (length ys)).0 l) z).1
  | inr n ↦ ground (arith, e, n)
]

pub constant_time_eq_refl : (xs : List ℕ) → constant_time_eq xs xs ≡ true
unfolding constant_time_eq
constant_time_eq_refl xs = rw (==_refl (length xs), differences_self xs) refl
