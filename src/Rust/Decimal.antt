-- ===== src/Rust/Decimal.antt =====
-- `u64` in decimal: `str::parse` and `Display`. `usize` is `u64` on the 64-bit targets.
use babar.Prelude.{
  ℕ, zero, suc, ◌+◌, ◌-◌, ◌*◌, ◌/◌, ◌%◌, ◌^◌, ◌<◌, ◌≤◌, ◌≡◌, refl, List, [], ◌∷◌, Option, none,
  some, Bool, true, false, ◌&&◌, ltb, leb, ◌==◌, if◌then◌else◌, arith, All, ◌∙◌, ne→==, Bool-cases,
  inl, inr, ltb→lt, ap, sym,
}

abbrev pub IsU64 : ℕ → Type 0
IsU64 n = n < 0x1_0000_0000_0000_0000

abbrev pub is_digit : ℕ → Bool
is_digit c = leb b'0' c && leb c b'9'

-- Each digit by `checked_mul` and `checked_add`; either overflow is an error.
unfoldable pub parse_digits : ℕ → List ℕ → Option ℕ
parse_digits acc [] = some acc
parse_digits acc (c ∷ cs) =
    let more = parse_digits (acc * 10 + (c - b'0')) cs in
    if is_digit c && ltb (acc * 10 + (c - b'0')) 0x1_0000_0000_0000_0000 then more else none

-- One `+` in front of the digits is accepted; there must be a digit.
unfoldable pub parse_u64 : List ℕ → Option ℕ
unfolding parse_digits
parse_u64 [] = none
parse_u64 (c ∷ []) = parse_digits 0 (c ∷ [])
parse_u64 (c ∷ d ∷ cs) = if c == b'+' then parse_digits 0 (d ∷ cs) else parse_digits 0 (c ∷ d ∷ cs)

-- The digits of `n` in front of `rest`, for `n` below 10 ^ fuel.
unfoldable pub digits : ℕ → ℕ → List ℕ → List ℕ
digits zero n rest = rest
digits (suc fuel) n rest = elim (ltb n 10) [
  | true ↦ (b'0' + n) ∷ rest
  | false ↦ digits fuel (n / 10) ((b'0' + n % 10) ∷ rest)
]

-- A `u64` has twenty digits at most.
unfoldable pub u64_to_string : ℕ → List ℕ
unfolding digits
u64_to_string n = digits 20 n []

parse_digit :
    (acc d : ℕ) (rest : List ℕ)
    → d < 10
    → IsU64 (acc * 10 + d)
    → parse_digits acc ((b'0' + d) ∷ rest) ≡ parse_digits (acc * 10 + d) rest
unfolding parse_digits
parse_digit acc d rest h k = let e : b'0' + d - b'0' ≡ d = omega arith in rw e (ground arith)

digit_is_digit : (d : ℕ) → d < 10 → is_digit (b'0' + d) ≡ true
digit_is_digit d h = ground arith

parse_digits-digits :
    (fuel n : ℕ) (rest : List ℕ)
    → n < 10 ^ fuel
    → IsU64 n
    → parse_digits 0 (digits fuel n rest) ≡ parse_digits n rest
unfolding digits
parse_digits-digits zero n rest h k = let e : n ≡ 0 = omega arith in rw e
parse_digits-digits (suc fuel) n rest h k = elim (Bool-cases (ltb n 10)) [
  | inl small ↦
      let e : 0 * 10 + n ≡ n = omega arith in
      rw (small, digits) (parse_digit 0 n rest (ltb→lt n 10 small) (omega arith) ∙ rw e)
  | inr large ↦
      let e : n / 10 * 10 + n % 10 ≡ n = omega arith in
      rw (large, digits)
        (parse_digits-digits fuel (n / 10) ((b'0' + n % 10) ∷ rest) (omega arith) (omega arith)
          ∙ parse_digit (n / 10) (n % 10) rest (omega arith) (omega arith)
          ∙ rw e)
]

-- The digits begin with a digit, and so not with a sign.
digits_head :
    (fuel n : ℕ) (rest : List ℕ)
    → (c : ℕ) × (cs : List ℕ) × (digits (suc fuel) n rest ≡ c ∷ cs) × (b'0' ≤ c) × (c ≤ b'9')
unfolding digits
digits_head zero n rest = elim (Bool-cases (ltb n 10)) [
  | inl small ↦ (b'0' + n, rest, rw (small, digits), omega arith, omega (arith, ltb→lt n 10 small))
  | inr large ↦ (b'0' + n % 10, rest, rw (large, digits), omega arith, omega arith)
]
digits_head (suc fuel) n rest = elim (Bool-cases (ltb n 10)) [
  | inl small ↦ (b'0' + n, rest, rw (small, digits), omega arith, omega (arith, ltb→lt n 10 small))
  | inr large ↦
      let (c, cs, e, lo, hi) = digits_head fuel (n / 10) ((b'0' + n % 10) ∷ rest) in
      (c, cs, rw (large, digits) e, lo, hi)
]

parse_u64_unsigned : (c : ℕ) (cs : List ℕ) → b'0' ≤ c → parse_u64 (c ∷ cs) ≡ parse_digits 0 (c ∷ cs)
unfolding parse_u64
parse_u64_unsigned c [] h = refl
parse_u64_unsigned c (d ∷ cs) h = rw (ne→== c b'+' (omega arith))

-- What `Display` prints, `parse` reads back.
pub parse_u64-u64_to_string : (n : ℕ) → IsU64 n → parse_u64 (u64_to_string n) ≡ some n
unfolding u64_to_string
parse_u64-u64_to_string n h =
    let (c, cs, e, lo, hi) = digits_head 19 n [] in
    ap parse_u64 e
    ∙ parse_u64_unsigned c cs lo
    ∙ ap (parse_digits 0) (sym e)
    ∙ parse_digits-digits 20 n [] (omega arith) h
    ∙ unfold parse_digits in refl

digits-All :
    (fuel n : ℕ) (rest : List ℕ)
    → All (λ c. is_digit c ≡ true) rest
    → All (λ c. is_digit c ≡ true) (digits fuel n rest)
unfolding digits
digits-All zero n rest h = h
digits-All (suc fuel) n rest h = elim (Bool-cases (ltb n 10)) [
  | inl small ↦ rw (small, digits) (digit_is_digit n (ltb→lt n 10 small), h)
  | inr large ↦
      rw (large, digits)
        (digits-All fuel (n / 10) ((b'0' + n % 10) ∷ rest)
          (digit_is_digit (n % 10) (omega arith), h))
]

pub u64_to_string-All : (n : ℕ) → All (λ c. is_digit c ≡ true) (u64_to_string n)
unfolding u64_to_string
u64_to_string-All n = digits-All 20 n [] tt

parse_digits-IsU64 :
    (acc : ℕ) (s : List ℕ) {n : ℕ} → IsU64 acc → parse_digits acc s ≡ some n → IsU64 n
unfolding parse_digits
parse_digits-IsU64 acc [] h e = ground arith
parse_digits-IsU64 acc (c ∷ cs) {n} h e =
    elim (Bool-cases (ltb (acc * 10 + (c - b'0')) 0x1_0000_0000_0000_0000)) [
      | inl small ↦
          ground (arith, parse_digits-IsU64 (acc * 10 + (c - b'0')) cs {n = n} (ltb→lt _ _ small))
      | inr large ↦ ground arith
    ]

-- What parses is in range.
pub parse_u64-IsU64 : (s : List ℕ) {n : ℕ} → parse_u64 s ≡ some n → IsU64 n
unfolding parse_u64
parse_u64-IsU64 [] e = cc
parse_u64-IsU64 (c ∷ []) e = parse_digits-IsU64 0 (c ∷ []) (omega arith) e
parse_u64-IsU64 (c ∷ d ∷ cs) {n} e = ground (
  arith,
  parse_digits-IsU64 0 (d ∷ cs) {n = n} (omega arith),
  parse_digits-IsU64 0 (c ∷ d ∷ cs) {n = n} (omega arith),
)
