-- ===== src/Query/Pieces.antt =====
-- SQL as texts and placeholders, and what renumbering makes of it.
use babar.Prelude.{
  ℕ, ◌+◌, ◌%◌, ◌^◌, ◌<◌, ◌≡◌, ◌≢◌, refl, List, [], ◌∷◌, ◌++◌, some, Bool, true, false, length, All,
  lt→ltb, ne→==, ==_iff, Bool-cases, inl, inr, ◌==◌, arith, ap, ◌∙◌, sym,
}
use babar.Rust.{
  is_digit, parse_u64, u64_to_string, IsU64, parse_u64-u64_to_string, u64_to_string-All,
}
use babar.Error.{is_empty}
use babar.Query.Fragment.{placeholder, digit_run, renumber_loop, renumber_placeholders}

pub data Piece : Type 0 where
  literal : List ℕ → Piece
  number : ℕ → Piece

abbrev pub render : List Piece → List ℕ
render [] = []
render (literal s ∷ pieces) = s ++ render pieces
render (number n ∷ pieces) = placeholder n ++ render pieces

abbrev pub shift : ℕ → List Piece → List Piece
shift offset [] = []
shift offset (literal s ∷ pieces) = literal s ∷ shift offset pieces
shift offset (number n ∷ pieces) = number (n + offset) ∷ shift offset pieces

abbrev pub starts_with_digit : List ℕ → Bool
starts_with_digit [] = false
starts_with_digit (b ∷ bytes) = is_digit b

-- Text in ASCII without a dollar sign.
abbrev pub IsPlain : ℕ → Type 0
IsPlain b = (b < 0x80) × (b ≢ b'$')

-- Pieces that can be told apart: no text is mistaken for a placeholder or for its continuation.
abbrev pub IsReadable : List Piece → Type 0
IsReadable [] = Unit
IsReadable (literal s ∷ pieces) = All IsPlain s × IsReadable pieces
IsReadable (number n ∷ pieces) =
    IsU64 n × (starts_with_digit (render pieces) ≡ false) × IsReadable pieces

abbrev pub FitsU64 : ℕ → List Piece → Type 0
FitsU64 offset [] = Unit
FitsU64 offset (literal s ∷ pieces) = FitsU64 offset pieces
FitsU64 offset (number n ∷ pieces) = IsU64 (n + offset) × FitsU64 offset pieces

digit_run_lem :
    (ds rest : List ℕ)
    → All (λ c. is_digit c ≡ true) ds
    → starts_with_digit rest ≡ false
    → digit_run (ds ++ rest) ≡ ds
digit_run_lem [] [] h e = refl
digit_run_lem [] (b ∷ rest) h e = rw e refl
digit_run_lem (d ∷ ds) rest (h, hs) e = rw (h, digit_run_lem ds rest hs e) refl

skip_lem :
    (offset : ℕ) (ds rest : List ℕ)
    → renumber_loop offset (length ds) (ds ++ rest) ≡ renumber_loop offset 0 rest
unfolding renumber_loop
skip_lem offset [] rest = refl
skip_lem offset (d ∷ ds) rest = skip_lem offset ds rest

plain_lem :
    (offset : ℕ) (s rest : List ℕ)
    → All IsPlain s
    → {out : List ℕ} → renumber_loop offset 0 rest ≡ some out
    → renumber_loop offset 0 (s ++ rest) ≡ some (s ++ out)
unfolding renumber_loop
plain_lem offset [] rest h e = e
plain_lem offset (b ∷ s) rest ((l, d), hs) e =
    rw (renumber_loop, ne→== b b'$' d, lt→ltb b 0x80 l, plain_lem offset s rest hs e) refl

u64_not_empty : (n : ℕ) (s : List ℕ) → parse_u64 s ≡ some n → is_empty s ≡ false
unfolding parse_u64
u64_not_empty n [] e = ground (arith, e)
u64_not_empty n (b ∷ s) e = refl

number_lem :
    (offset n : ℕ) (rest : List ℕ)
    → IsU64 n
    → IsU64 (n + offset)
    → starts_with_digit rest ≡ false
    → {out : List ℕ} → renumber_loop offset 0 rest ≡ some out
    → renumber_loop offset 0 (placeholder n ++ rest) ≡ some (placeholder (n + offset) ++ out)
unfolding renumber_loop
number_lem offset n rest h k e {out} r =
    let ds = u64_to_string n in
    let run : digit_run (ds ++ rest) ≡ ds = digit_run_lem ds rest (u64_to_string-All n) e in
    let m : (n + offset) % 2 ^ 64 ≡ n + offset = omega (arith, k) in
    rw
      (
        renumber_loop,
        run,
        u64_not_empty n ds (parse_u64-u64_to_string n h),
        run,
        parse_u64-u64_to_string n h,
        skip_lem offset ds rest,
        r,
        m,
      )
      refl

pub renumber_loop-render :
    (offset : ℕ) (pieces : List Piece)
    → IsReadable pieces
    → FitsU64 offset pieces
    → renumber_loop offset 0 (render pieces) ≡ some (render (shift offset pieces))
unfolding renumber_loop
renumber_loop-render offset [] h k = refl
renumber_loop-render offset (literal s ∷ pieces) (h, hs) k =
    plain_lem offset s (render pieces) h (renumber_loop-render offset pieces hs k)
renumber_loop-render offset (number n ∷ pieces) (h, e, hs) (k, ks) =
    number_lem offset n (render pieces) h k e (renumber_loop-render offset pieces hs ks)

shift_zero : (pieces : List Piece) → shift 0 pieces ≡ pieces
shift_zero [] = refl
shift_zero (literal s ∷ pieces) = ap (λ ps. literal s ∷ ps) (shift_zero pieces)
shift_zero (number n ∷ pieces) = let e : n + 0 ≡ n = omega arith in rw (e, shift_zero pieces) refl

-- Renumbering adds the offset to every placeholder and leaves the texts, when the texts are ASCII without
-- a dollar sign, no text continues the number in front of it, and the numbers fit in 64 bits.
pub renumber_placeholders-render :
    (offset : ℕ) (pieces : List Piece)
    → IsReadable pieces
    → FitsU64 offset pieces
    → renumber_placeholders (render pieces) offset ≡ some (render (shift offset pieces))
unfolding renumber_placeholders
renumber_placeholders-render offset pieces h k = elim (Bool-cases (offset == 0)) [
  | inl z ↦
      let e : offset ≡ 0 = (==_iff offset 0).0 z in
      rw (z) (ap some (ap render (sym (shift_zero pieces) ∙ ap (λ o. shift o pieces) (sym e))))
  | inr z ↦ rw (z) (renumber_loop-render offset pieces h k)
]
