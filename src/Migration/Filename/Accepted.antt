-- ===== src/Migration/Filename/Accepted.antt =====
-- crates/core/src/migration/filename.rs: what `MigrationFilename::parse` accepts.
use babar.Prelude.{
  ℕ, ◌≡◌, ◌≢◌, [], ◌∷◌, ◌++◌, Option, none, some, Bool, true, false, ok, ok_or, arith, All, ap, ◌∙◌,
  append_assoc, >>=-eq-ok, ok-injective, subst, ◌⊎◌, all, ◌≤◌, inl, inr, Bool-cases, Option-cases,
  ◌==◌, ◌&&◌, ◌||◌, not,
}
use mathlib.Core.Logic.{ite}
use babar.Rust.{IsU64, parse_u64, parse_u64-IsU64, ascii}
use babar.Migration.Errors.{Text}
use babar.Migration.Filename.{
  MigrationId, MigrationKind, up, down, MigrationFilename, strip_suffix, split_underscores,
  split_kind, is_bad_name, new_id, parse_filename, is_name_byte, cons_front, cons_first, is_empty,
  starts_with_underscore, is_some, Text-discrete,
}
use babar.Migration.Filename.Grammar.{ok_or-eq-ok, strip_suffix-append}

-- A lower-case letter, a digit or an underscore.
abbrev pub IsNameByte : ℕ → Type 0
IsNameByte c = ((b'a' ≤ c) × (c ≤ b'z')) ⊎ ((b'0' ≤ c) × (c ≤ b'9')) ⊎ (c ≡ b'_')

-- A name as the documentation has it: not empty, of such bytes, with no underscore at either end and no two
-- of them in a row.
abbrev pub IsName : Text → Type 0
IsName name =
    (name ≢ [])
    × All IsNameByte name
    × ((rest : Text) → name ≢ b'_' ∷ rest)
    × ((front : Text) → name ≢ front ++ (b'_' ∷ []))
    × ((front rest : Text) → name ≢ front ++ (b'_' ∷ b'_' ∷ rest))

abbrev Strips : (suffix text : Text) → Option Text → Type 0
Strips suffix text none = Unit
Strips suffix text (some s) = text ≡ s ++ suffix

cons_front-Strips :
    (suffix text : Text) (c : ℕ) (o : Option Text)
    → Strips suffix text o
    → Strips suffix (c ∷ text) (cons_front c o)
cons_front-Strips suffix text c none h = tt
cons_front-Strips suffix text c (some s) h = ap (λ z. c ∷ z) h

-- What `strip_suffix` leaves is in front of the suffix.
strip_suffix-Strips : (suffix text : Text) → Strips suffix text (strip_suffix suffix text)
unfolding strip_suffix
strip_suffix-Strips suffix [] =
    elim (Text-discrete [] suffix) as (λ d. Strips suffix [] (ite d (some []) none)) [
      | yes e ↦ e
      | no n ↦ tt
    ]
strip_suffix-Strips suffix (c ∷ text) =
    elim (Text-discrete (c ∷ text) suffix)
      as (λ d.
        Strips suffix (c ∷ text) (ite d (some []) (cons_front c (strip_suffix suffix text)))) [
          | yes e ↦ e
          | no n ↦
              cons_front-Strips suffix text c (strip_suffix suffix text)
                (strip_suffix-Strips suffix text)
        ]

abbrev Splits : Text → Option (Text × Text) → Type 0
Splits text none = (front rest : Text) → text ≢ front ++ (b'_' ∷ b'_' ∷ rest)
Splits text (some (s, name)) = text ≡ s ++ (b'_' ∷ b'_' ∷ name)

too_short : (c : ℕ) (front rest : Text) → Path Text (c ∷ []) (front ++ (b'_' ∷ b'_' ∷ rest)) → ⊥
too_short c [] rest h = cc
too_short c (d ∷ []) rest h = cc
too_short c (d ∷ e ∷ front) rest h = cc

empty_splits : (front rest : Text) → Path Text [] (front ++ (b'_' ∷ b'_' ∷ rest)) → ⊥
empty_splits [] rest h = cc
empty_splits (d ∷ front) rest h = cc

no_underscores :
    (c d : ℕ) (text : Text)
    → (c == b'_' && d == b'_') ≡ false
    → ((front rest : Text) → d ∷ text ≢ front ++ (b'_' ∷ b'_' ∷ rest))
    → (front rest : Text) → c ∷ d ∷ text ≢ front ++ (b'_' ∷ b'_' ∷ rest)
no_underscores c d text e h [] rest q = ground (arith, e, q)
no_underscores c d text e h (x ∷ front) rest q = ground (arith, q, h front rest)

cons_first-Splits :
    (c : ℕ) (d : ℕ) (text : Text) (o : Option (Text × Text))
    → (c == b'_' && d == b'_') ≡ false
    → Splits (d ∷ text) o
    → Splits (c ∷ d ∷ text) (cons_first c o)
cons_first-Splits c d text none e h = no_underscores c d text e h
cons_first-Splits c d text (some (s, name)) e h = ap (λ z. c ∷ z) h

-- `split_underscores` finds two underscores in a row where there are some.
split_underscores-Splits : (text : Text) → Splits text (split_underscores text)
unfolding split_underscores
split_underscores-Splits [] = empty_splits
split_underscores-Splits (c ∷ []) = too_short c
split_underscores-Splits (c ∷ d ∷ text) = elim (Bool-cases (c == b'_' && d == b'_')) [
  | inl e ↦ rw e (ground (arith, e))
  | inr e ↦ rw e (
      cons_first-Splits c d text (split_underscores (d ∷ text)) e
        (split_underscores-Splits (d ∷ text)))
]

all-All : (name : Text) → all is_name_byte name ≡ true → All IsNameByte name
all-All [] h = tt
all-All (c ∷ name) h = ground (arith, all-All name)

or_false : (a b : Bool) → (a || b) ≡ false → (a ≡ false) × (b ≡ false)
or_false a b h = ground (arith, h)

ends_in_underscore :
    (name : Text)
    → is_some (strip_suffix (b'_' ∷ []) name) ≡ false
    → (front : Text) → name ≢ front ++ (b'_' ∷ [])
ends_in_underscore name h front q =
    ground (arith, h, ap (strip_suffix (b'_' ∷ [])) q ∙ strip_suffix-append front (b'_' ∷ []))

has_underscores :
    (name : Text) (o : Option (Text × Text))
    → Splits name o
    → is_some o ≡ false
    → (front rest : Text) → name ≢ front ++ (b'_' ∷ b'_' ∷ rest)
has_underscores name none h e = h
has_underscores name (some p) h e = ground (arith, e)

is_bad_name_lem : (name : Text) → is_bad_name name ≡ false → IsName name
unfolding is_bad_name
is_bad_name_lem name h =
    let (h1, bytes) =
      or_false
        (is_empty name
          || starts_with_underscore name
          || is_some (strip_suffix (b'_' ∷ []) name)
          || is_some (split_underscores name))
        (not (all is_name_byte name)) h in
    let (h2, inside) =
      or_false
        (is_empty name || starts_with_underscore name || is_some (strip_suffix (b'_' ∷ []) name))
        (is_some (split_underscores name)) h1 in
    let (h3, end) =
      or_false (is_empty name || starts_with_underscore name)
        (is_some (strip_suffix (b'_' ∷ []) name)) h2 in
    let (empty, start) = or_false (is_empty name) (starts_with_underscore name) h3 in
    (
      λ q. ground (arith, empty, ap is_empty q),
      all-All name (ground (arith, bytes)),
      λ rest q. ground (arith, start, ap starts_with_underscore q),
      ends_in_underscore name end,
      has_underscores name (split_underscores name) (split_underscores-Splits name) inside,
    )

abbrev Kinds : Text → Option (Text × MigrationKind) → Type 0
Kinds stem none = Unit
Kinds stem (some (base, up)) = stem ≡ base ++ ascii ".up"
Kinds stem (some (base, down)) = stem ≡ base ++ ascii ".down"

strip_lem : (suffix text : Text) (s : Text) → strip_suffix suffix text ≡ some s → text ≡ s ++ suffix
strip_lem suffix text s h = subst (Strips suffix text) h (strip_suffix-Strips suffix text)

split_kind-Kinds : (stem : Text) → Kinds stem (split_kind stem)
unfolding split_kind
split_kind-Kinds stem = elim (Option-cases (strip_suffix (ascii ".up") stem)) [
  | inr (base, e) ↦ rw (split_kind, e) (strip_lem (ascii ".up") stem base e)
  | inl e ↦ elim (Option-cases (strip_suffix (ascii ".down") stem)) [
    | inr (base, g) ↦ rw (split_kind, e, g) (strip_lem (ascii ".down") stem base g)
    | inl g ↦ rw (split_kind, e, g) tt
  ]
]

abbrev pub kind_suffix : MigrationKind → Text
kind_suffix up = ascii ".up.sql"
kind_suffix down = ascii ".down.sql"

-- The parts of an accepted text are put together again.
assembled :
    (text stem base version name : Text) (kind : MigrationKind)
    → text ≡ stem ++ ascii ".sql"
    → Kinds stem (some (base, kind))
    → base ≡ version ++ (b'_' ∷ b'_' ∷ name)
    → text ≡ version ++ ((b'_' ∷ b'_' ∷ name) ++ kind_suffix kind)
assembled text stem base version name up a b c =
    a
    ∙ ap (λ z. z ++ ascii ".sql") b
    ∙ append_assoc base (ascii ".up") (ascii ".sql")
    ∙ ap (λ z. z ++ ascii ".up.sql") c
    ∙ append_assoc version (b'_' ∷ b'_' ∷ name) (ascii ".up.sql")
assembled text stem base version name down a b c =
    a
    ∙ ap (λ z. z ++ ascii ".sql") b
    ∙ append_assoc base (ascii ".down") (ascii ".sql")
    ∙ ap (λ z. z ++ ascii ".down.sql") c
    ∙ append_assoc version (b'_' ∷ b'_' ∷ name) (ascii ".down.sql")

new_id_same :
    (n : ℕ) (name : Text) (id : MigrationId)
    → new_id n name ≡ ok id
    → (record { version = n; name = name } ≡ id) × IsName name
unfolding new_id
new_id_same n name id e = elim (Bool-cases (is_bad_name name)) [
  | inl bad ↦ ground (arith, bad)
  | inr good ↦ (ground (arith, good), is_bad_name_lem name good)
]

abbrev Accepts : Text → MigrationFilename → Type 0
Accepts text f =
    IsU64 f.id.version
    × IsName f.id.name
    × (version : Text) × (parse_u64 version ≡ some f.id.version)
    × (text ≡ version ++ ((b'_' ∷ b'_' ∷ f.id.name) ++ kind_suffix f.kind))

-- A file name is accepted only if it is a version, two underscores, a name and one of the two endings; the
-- version reads as the number of 64 bits that is returned, and the name, which is returned as it stands, is
-- not empty, is of lower-case letters, digits and underscores, and has no underscore at either end and no
-- two in a row.
pub parse_filename_accepts :
    (text : Text) {f : MigrationFilename}
    → parse_filename text ≡ ok f
    → IsU64 f.id.version
      × IsName f.id.name
      × (version : Text) × (parse_u64 version ≡ some f.id.version)
      × (text ≡ version ++ ((b'_' ∷ b'_' ∷ f.id.name) ++ kind_suffix f.kind))
unfolding parse_filename
parse_filename_accepts text e =
    let (stem, a, e1) = >>=-eq-ok (ok_or (strip_suffix (ascii ".sql") text) _) _ e in
    let ((base, kind), b, e2) = >>=-eq-ok (ok_or (split_kind stem) _) _ e1 in
    let ((version, name), c, e3) = >>=-eq-ok (ok_or (split_underscores base) _) _ e2 in
    let (n, d, e4) = >>=-eq-ok (ok_or (parse_u64 version) _) _ e3 in
    let (id, g, e5) = >>=-eq-ok (new_id n name) _ e4 in
    let (i, valid) = new_id_same n name id g in
    let number = ok_or-eq-ok (parse_u64 version) _ d in
    let sql =
      strip_lem (ascii ".sql") text stem (ok_or-eq-ok (strip_suffix (ascii ".sql") text) _ a) in
    let ends = subst (Kinds stem) (ok_or-eq-ok (split_kind stem) _ b) (split_kind-Kinds stem) in
    let parts =
      subst (Splits base) (ok_or-eq-ok (split_underscores base) _ c)
        (split_underscores-Splits base) in
    let same : record { id = id; kind = kind } ≡ _ = ok-injective e5 in
    let made = ap (λ x. record { id = x; kind = kind }) i ∙ same in
    subst (Accepts text) made (
      parse_u64-IsU64 version number,
      valid,
      version,
      number,
      assembled text stem base version name kind sql ends parts,
    )
