-- ===== src/Query/Numbered.antt =====
-- The placeholders of a fragment are numbered from one, in order, without a gap.
use babar.Prelude.{
  ℕ, zero, suc, ◌+◌, ◌%◌, ◌^◌, ◌<◌, ◌≤◌, ◌≡◌, refl, List, [], ◌∷◌, ◌++◌, append_assoc, append-nil,
  some, false, length, length-append, All, arith, ap, ◌∙◌, sym,
}
use babar.Query.Fragment.{
  Encoder, Fragment, from_parts, first_origin, append_lit, bind_codec, plus, append_encoder,
  placeholder, renumber_placeholders,
}
use babar.Query.Pieces.{
  Piece, literal, number, render, shift, starts_with_digit, IsPlain, IsReadable, FitsU64,
  renumber_placeholders-render,
}

abbrev pub numbers : List Piece → List ℕ
numbers [] = []
numbers (literal s ∷ pieces) = numbers pieces
numbers (number n ∷ pieces) = n ∷ numbers pieces

-- So many numbers from one on.
abbrev pub count_from : (first how_many : ℕ) → List ℕ
count_from first zero = []
count_from first (suc n) = first ∷ count_from (first + 1) n

-- The SQL is that of pieces whose numbers count from one to the number of parameters, and the encoder
-- declares one OID for each.
abbrev pub IsNumbered : {A : Type 0} → Fragment A → Type 0
IsNumbered f =
    (pieces : List Piece) × (f.sql ≡ render pieces)
    × IsReadable pieces
    × (numbers pieces ≡ count_from 1 f.n_params)
    × (length f.encoder.oids ≡ f.n_params)

render-append : (xs ys : List Piece) → render (xs ++ ys) ≡ render xs ++ render ys
render-append [] ys = refl
render-append (literal s ∷ xs) ys =
    ap (λ z. s ++ z) (render-append xs ys) ∙ sym (append_assoc s (render xs) (render ys))
render-append (number n ∷ xs) ys =
    ap (λ z. placeholder n ++ z) (render-append xs ys)
    ∙ sym (append_assoc (placeholder n) (render xs) (render ys))

numbers-append : (xs ys : List Piece) → numbers (xs ++ ys) ≡ numbers xs ++ numbers ys
numbers-append [] ys = refl
numbers-append (literal s ∷ xs) ys = numbers-append xs ys
numbers-append (number n ∷ xs) ys = ap (λ z. n ∷ z) (numbers-append xs ys)

count_from-append :
    (first n m : ℕ) → count_from first n ++ count_from (first + n) m ≡ count_from first (n + m)
count_from-append first zero m =
    let a : first + 0 ≡ first = omega arith in let b : 0 + m ≡ m = omega arith in rw (a, b) refl
count_from-append first (suc n) m =
    let a : first + suc n ≡ first + 1 + n = omega arith in
    let b : suc n + m ≡ suc (n + m) = omega arith in
    rw (a, b) (ap (λ z. first ∷ z) (count_from-append (first + 1) n m))

starts_with_digit-append :
    (xs ys : List ℕ)
    → starts_with_digit xs ≡ false
    → starts_with_digit ys ≡ false
    → starts_with_digit (xs ++ ys) ≡ false
starts_with_digit-append [] ys h k = k
starts_with_digit-append (x ∷ xs) ys h k = h

IsReadable-append :
    (xs ys : List Piece)
    → IsReadable xs
    → IsReadable ys
    → starts_with_digit (render ys) ≡ false
    → IsReadable (xs ++ ys)
IsReadable-append [] ys h k e = k
IsReadable-append (literal s ∷ xs) ys (h, hs) k e = (h, IsReadable-append xs ys hs k e)
IsReadable-append (number n ∷ xs) ys (h, d, hs) k e = (
  h,
  ap starts_with_digit (render-append xs ys) ∙ starts_with_digit-append (render xs) (render ys) d e,
  IsReadable-append xs ys hs k e,
)

-- The numbers that count up to a bound stay in range when they are shifted by an offset.
FitsU64_lem :
    (offset first m : ℕ) (pieces : List Piece)
    → numbers pieces ≡ count_from first m
    → first + m + offset ≤ 2 ^ 64
    → FitsU64 offset pieces
FitsU64_lem offset first m [] e h = tt
FitsU64_lem offset first m (literal s ∷ pieces) e h = FitsU64_lem offset first m pieces e h
FitsU64_lem offset first zero (number n ∷ pieces) e h = ground (arith, e)
FitsU64_lem offset first (suc m) (number n ∷ pieces) e h =
    let a : n ≡ first = ground (arith, e) in
    let b : numbers pieces ≡ count_from (first + 1) m = ground (arith, e) in
    (omega (arith, a, h), FitsU64_lem offset (first + 1) m pieces b (omega (arith, h)))

numbers-shift :
    (offset first m : ℕ) (pieces : List Piece)
    → numbers pieces ≡ count_from first m
    → numbers (shift offset pieces) ≡ count_from (first + offset) m
numbers-shift offset first zero [] e = refl
numbers-shift offset first (suc m) [] e = ground (arith, e)
numbers-shift offset first m (literal s ∷ pieces) e = numbers-shift offset first m pieces e
numbers-shift offset first zero (number n ∷ pieces) e = ground (arith, e)
numbers-shift offset first (suc m) (number n ∷ pieces) e =
    let a : n ≡ first = ground (arith, e) in
    let b : numbers pieces ≡ count_from (first + 1) m = ground (arith, e) in
    let c : first + 1 + offset ≡ first + offset + 1 = omega arith in
    rw (a)
      (ap (λ z. (first + offset) ∷ z) (numbers-shift offset (first + 1) m pieces b ∙ rw (c) refl))

starts-shift :
    (offset : ℕ) (pieces : List Piece)
    → starts_with_digit (render (shift offset pieces)) ≡ starts_with_digit (render pieces)
starts-shift offset [] = refl
starts-shift offset (literal [] ∷ pieces) = starts-shift offset pieces
starts-shift offset (literal (b ∷ s) ∷ pieces) = refl
starts-shift offset (number n ∷ pieces) = refl

IsReadable-shift :
    (offset : ℕ) (pieces : List Piece)
    → IsReadable pieces
    → FitsU64 offset pieces
    → IsReadable (shift offset pieces)
IsReadable-shift offset [] h k = tt
IsReadable-shift offset (literal s ∷ pieces) (h, hs) k = (h, IsReadable-shift offset pieces hs k)
IsReadable-shift offset (number n ∷ pieces) (h, e, hs) (k, ks) =
    (k, starts-shift offset pieces ∙ e, IsReadable-shift offset pieces hs ks)

-- Literal SQL in ASCII without a dollar sign keeps the numbering, when no digit comes first.
pub append_lit-IsNumbered :
    {A : Type 0} (f : Fragment A) (s : List ℕ)
    → IsNumbered f
    → All IsPlain s
    → starts_with_digit s ≡ false
    → IsNumbered (append_lit f s)
append_lit-IsNumbered f s (pieces, e, r, n, o) h d = (
  pieces ++ (literal s ∷ []),
  ap (λ z. z ++ s) e
      ∙ ap (λ z. render pieces ++ z) (sym (append-nil s))
      ∙ sym (render-append pieces (literal s ∷ [])),
  IsReadable-append pieces (literal s ∷ []) r (h, tt) (ap starts_with_digit (append-nil s) ∙ d),
  numbers-append pieces (literal s ∷ []) ∙ append-nil (numbers pieces) ∙ n,
  o,
)

-- Binding a codec of one parameter adds the next placeholder, while the count fits in 64 bits.
pub bind_codec-IsNumbered :
    {A X : Type 0} (f : Fragment A) (codec : Encoder X)
    → IsNumbered f
    → length codec.oids ≡ 1
    → f.n_params + 1 < 2 ^ 64
    → IsNumbered (bind_codec f codec)
unfolding bind_codec append_encoder
bind_codec-IsNumbered f codec (pieces, e, r, n, o) one h =
    let m = f.n_params in
    let w : (m + 1) % 2 ^ 64 ≡ m + 1 = omega (arith, h) in
    let next = number (m + 1) ∷ [] in
    rw (w) (
      pieces ++ next,
      ap (λ z. z ++ placeholder (m + 1)) e
          ∙ ap (λ z. render pieces ++ z) (sym (append-nil (placeholder (m + 1))))
          ∙ sym (render-append pieces next),
      IsReadable-append pieces next r (omega (arith, h), refl, tt) refl,
      numbers-append pieces next
          ∙ ap (λ z. z ++ ((m + 1) ∷ [])) n
          ∙ ap (λ k. count_from 1 m ++ (k ∷ [])) (let q : m + 1 ≡ 1 + m = omega arith in q)
          ∙ count_from-append 1 m 1,
      omega (arith, length-append f.encoder.oids codec.oids, o, one),
    )

-- Concatenating two fragments whose placeholders count from one gives one whose placeholders do: none is
-- used twice and none is left out, and the encoder has a parameter for each. The second must not begin
-- with a digit, and the counts together must fit in 64 bits.
pub plus-IsNumbered :
    {A B : Type 0} (f : Fragment A) (g : Fragment B)
    → IsNumbered f
    → IsNumbered g
    → starts_with_digit g.sql ≡ false
    → f.n_params + g.n_params < 2 ^ 64
    → (both : Fragment (A × B)) × (plus f g ≡ some both) × IsNumbered both
unfolding plus append_encoder
plus-IsNumbered f g (ps, e, r, n, o) (qs, e', r', n', o') d h =
    let m = f.n_params in
    let k = g.n_params in
    let w : (m + k) % 2 ^ 64 ≡ m + k = omega (arith, h) in
    let fits = FitsU64_lem m 1 k qs n' (omega (arith, h)) in
    let moved : renumber_placeholders g.sql m ≡ some (render (shift m qs)) =
      ap (λ s. renumber_placeholders s m) e' ∙ renumber_placeholders-render m qs r' fits in
    (
      from_parts (f.sql ++ render (shift m qs)) (append_encoder f.encoder g.encoder)
          ((m + k) % 2 ^ 64) (first_origin f.origin g.origin),
      rw (moved) refl,
      rw (w) (
        ps ++ shift m qs,
        ap (λ z. z ++ render (shift m qs)) e ∙ sym (render-append ps (shift m qs)),
        IsReadable-append ps (shift m qs) r (IsReadable-shift m qs r' fits)
            (starts-shift m qs ∙ ap starts_with_digit (sym e') ∙ d),
        numbers-append ps (shift m qs)
            ∙ ap (λ z. z ++ numbers (shift m qs)) n
            ∙ ap (λ z. count_from 1 m ++ z) (numbers-shift m 1 k qs n')
            ∙ count_from-append 1 m k,
        omega (arith, length-append f.encoder.oids g.encoder.oids, o, o'),
      ),
    )
