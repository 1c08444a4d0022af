-- ===== src/Codec/Tuple.antt =====
-- crates/core/src/codec/tuple.rs: the codecs of tuples. The macro makes one for each arity, out of the
-- components in order; here they are put in front of one another, and `tuple` adds the check of the length.
use babar.Prelude.{
  ℕ, ◌+◌, ◌≡◌, refl, List, [], ◌++◌, append_assoc, append-nil, Result, ok, err, ◌>>=◌, map_ok,
  length, length-append, take, drop, take_front, drop_front, ltb, if◌then◌else◌, arith, ap, ◌∙◌,
  sym,
}
use babar.Rust.{ascii, u64_to_string}
use babar.Error.{Error, codec}
use babar.Codec.Interface.{Cell, Codec, IsLawful}

-- The codec of `()`.
unfoldable pub unit_codec : Codec (Unit {0})
unit_codec = record {
  encode = λ value params. ok params;
  decode = λ columns. ok tt;
  n_columns = 0;
  oids = [];
  format_codes = [];
}

-- One component in front of the others.
module _ {A B : Type 0} (c : Codec A) (rest : Codec B) where
  abbrev encode_component : A × B → List Cell → Result Error (List Cell)
  encode_component (a, b) params = c.encode a params >>= rest.encode b

  abbrev decode_component : List Cell → Result Error (A × B)
  decode_component columns = c.decode (take c.n_columns columns) >>= λ a.
      map_ok (λ b. (a, b)) (rest.decode (drop c.n_columns columns))

  unfoldable pub component : Codec (A × B)
  component = record {
    encode = encode_component;
    decode = decode_component;
    n_columns = c.n_columns + rest.n_columns;
    oids = c.oids ++ rest.oids;
    format_codes = c.format_codes ++ rest.format_codes;
  }

-- `need_columns`.
abbrev need_columns : {A : Type 0} → List Cell → (expected : ℕ) → Result Error A → Result Error A
need_columns columns expected next =
    if ltb (length columns) expected
    then err (
        codec (
          ascii "tuple decoder needs "
          ++ u64_to_string expected
          ++ ascii " columns, got "
          ++ u64_to_string (length columns)))
    else next

unfoldable pub tuple : {A : Type 0} → Codec A → Codec A
tuple components = record components {
  decode = λ columns. need_columns columns components.n_columns (components.decode columns);
}

pub unit_codec-IsLawful : IsLawful unit_codec (λ u. Unit)
unfolding unit_codec
unit_codec-IsLawful = record {
  oids_length = refl;
  formats_length = refl;
  round_trip = λ v u. ([], refl, λ params. ap ok (sym (append-nil params)), refl);
}

abbrev pub Both : {A B : Type 0} → (A → Type 0) → (B → Type 0) → A × B → Type 0
Both P Q (a, b) = P a × Q b

-- A component in front of lawful ones makes them lawful, when it is lawful itself.
pub component-IsLawful :
    {A B : Type 0} (c : Codec A) (rest : Codec B) (P : A → Type 0) (Q : B → Type 0)
    → IsLawful c P
    → IsLawful rest Q
    → IsLawful (component c rest) (Both P Q)
unfolding component
component-IsLawful {A} {B} c rest P Q l m = record {
  oids_length = omega (arith, length-append c.oids rest.oids, l.oids_length, m.oids_length);
  formats_length =
      omega
        (arith, length-append c.format_codes rest.format_codes, l.formats_length, m.formats_length);
  round_trip = round_trip_pair;
}
  where
    round_trip_pair :
        (v : A × B)
        → Both P Q v
        → (cells : List Cell) × (length cells ≡ c.n_columns + rest.n_columns)
          × ((params : List Cell) → (component c rest).encode v params ≡ ok (params ++ cells))
          × ((component c rest).decode cells ≡ ok v)
    round_trip_pair (a, b) (p, q) =
        let (xs, e, enc, dec) = l.round_trip a p in
        let (ys, f, enc', dec') = m.round_trip b q in
        let front : take c.n_columns (xs ++ ys) ≡ xs =
          ap (λ n. take n (xs ++ ys)) (sym e) ∙ take_front xs ys in
        let back : drop c.n_columns (xs ++ ys) ≡ ys =
          ap (λ n. drop n (xs ++ ys)) (sym e) ∙ drop_front xs ys in
        (
          xs ++ ys,
          omega (arith, length-append xs ys, e, f),
          λ params. rw (enc params) (enc' (params ++ xs) ∙ ap ok (append_assoc params xs ys)),
          rw (front, back, dec, dec') refl,
        )

-- A tuple of lawful components is lawful.
pub tuple-IsLawful :
    {A : Type 0} (components : Codec A) (P : A → Type 0)
    → IsLawful components P
    → IsLawful (tuple components) P
unfolding tuple
tuple-IsLawful components P l = record {
  oids_length = l.oids_length;
  formats_length = l.formats_length;
  round_trip =
      λ v p. let (cells, e, enc, dec) = l.round_trip v p in (cells, e, enc, ground (arith, e));
}
