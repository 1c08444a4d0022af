-- ===== src/Migration/Filename/Grammar.antt =====
-- Printing and parsing file names.
use babar.Prelude.{
  ℕ, ◌≡◌, ◌≢◌, refl, [], ◌∷◌, ◌++◌, Option, none, some, true, false, ok, ok_or, arith, All, length,
  length-append, ap, sym, ◌∙◌, append_assoc, Bool-cases, >>=-eq-ok, ok-injective, inl, inr, subst,
}
use babar.Rust.{
  IsU64, is_digit, parse_u64, u64_to_string, u64_to_string-All, parse_u64-u64_to_string,
  parse_u64-IsU64, ascii,
}
use babar.Migration.Errors.{Text}
use babar.Migration.Filename.{
  MigrationId, MigrationKind, up, down, suffix, MigrationFilename, strip_suffix, split_underscores,
  split_kind, is_bad_name, new_id, id_to_string, file_name, parse_filename,
}

ne_of_length : (s t : Text) → length s ≢ length t → s ≢ t
ne_of_length s t h e = h (ap length e)

pub strip_suffix-append : (s suffix : Text) → strip_suffix suffix (s ++ suffix) ≡ some s
unfolding strip_suffix
strip_suffix-append [] [] = ground arith
strip_suffix-append [] (c ∷ cs) = ground arith
strip_suffix-append (c ∷ s) suffix = ground (
  arith,
  strip_suffix-append s suffix,
  ne_of_length (c ∷ s ++ suffix) suffix (omega (arith, length-append s suffix)),
)

down_only : strip_suffix (ascii ".up") (ascii ".down") ≡ none
unfolding strip_suffix babar.Migration.Filename.Text-discrete native.Mathlib.Decide.ℕ_discrete
down_only = refl

-- A text that ends in `.down` does not end in `.up`.
strip_suffix_down : (s : Text) → strip_suffix (ascii ".up") (s ++ ascii ".down") ≡ none
unfolding strip_suffix
strip_suffix_down [] = down_only
strip_suffix_down (c ∷ s) = ground (
  arith,
  strip_suffix_down s,
  ne_of_length (c ∷ s ++ ascii ".down") (ascii ".up")
      (omega (arith, length-append s (ascii ".down"))),
)

split_kind-append :
    (s : Text) (k : MigrationKind) → split_kind (s ++ (b'.' ∷ suffix k)) ≡ some (s, k)
unfolding split_kind
split_kind-append s up = rw (strip_suffix-append s (ascii ".up"), split_kind)
split_kind-append s down =
    rw (split_kind, strip_suffix_down s, strip_suffix-append s (ascii ".down"))

split_underscores-append :
    (s name : Text)
    → All (λ c. is_digit c ≡ true) s
    → split_underscores (s ++ (b'_' ∷ b'_' ∷ name)) ≡ some (s, name)
unfolding split_underscores
split_underscores-append [] name h = refl
split_underscores-append (c ∷ []) name (h, k) = ground arith
split_underscores-append (c ∷ d ∷ s) name (h, k) =
    ground (arith, split_underscores-append (d ∷ s) name k)

strip_sql :
    (s : Text) (k : MigrationKind)
    → strip_suffix (ascii ".sql") (s ++ (b'.' ∷ suffix k ++ ascii ".sql"))
      ≡ some (s ++ (b'.' ∷ suffix k))
strip_sql s k =
    ap (strip_suffix (ascii ".sql")) (sym (append_assoc s (b'.' ∷ suffix k) (ascii ".sql")))
    ∙ strip_suffix-append (s ++ (b'.' ∷ suffix k)) (ascii ".sql")

-- What `MigrationId::new` admits, with a version of 64 bits.
abbrev pub IsId : MigrationId → Type 0
IsId id = IsU64 id.version × (is_bad_name id.name ≡ false)

new_id_lem : (id : MigrationId) → IsId id → new_id id.version id.name ≡ ok id
unfolding new_id
new_id_lem id (v, n) = rw n

-- The name of a file whose identifier is valid, with a version of 64 bits, parses back to the identifier
-- and the direction that it was made of.
pub parse_filename-file_name :
    (f : MigrationFilename) → IsId f.id → parse_filename (file_name f) ≡ ok f
unfolding parse_filename
parse_filename-file_name f h =
    let base = id_to_string f.id in
    let s : strip_suffix (ascii ".sql") (file_name f) ≡ some (base ++ (b'.' ∷ suffix f.kind)) =
      unfold file_name in strip_sql base f.kind in
    let u : split_underscores base ≡ some (u64_to_string f.id.version, f.id.name) =
      unfold id_to_string in
      split_underscores-append (u64_to_string f.id.version) f.id.name
        (u64_to_string-All f.id.version) in
    rw (
      s,
      split_kind-append base f.kind,
      u,
      parse_u64-u64_to_string f.id.version h.0,
      new_id_lem f.id h,
    )

pub ok_or-eq-ok :
    {A : Type 0} {E : Type 0} (o : Option A) (e : E) {a : A} → ok_or o e ≡ ok a → o ≡ some a
ok_or-eq-ok none e h = cc
ok_or-eq-ok (some x) e h = cc

new_id-IsId : (n : ℕ) (name : Text) {id : MigrationId} → IsU64 n → new_id n name ≡ ok id → IsId id
unfolding new_id
new_id-IsId n name {id} h e = elim (Bool-cases (is_bad_name name)) [
  | inl bad ↦ ground (arith, bad)
  | inr good ↦
      let i : record { version = n; name = name } ≡ id = ground (arith, good) in
      subst IsId i (h, good)
]

-- What parses is made of a valid identifier.
pub parse_filename-IsId :
    (text : Text) {f : MigrationFilename} → parse_filename text ≡ ok f → IsId f.id
unfolding parse_filename
parse_filename-IsId text e =
    let (stem, a, e1) = >>=-eq-ok (ok_or (strip_suffix (ascii ".sql") text) _) _ e in
    let ((base, kind), b, e2) = >>=-eq-ok (ok_or (split_kind stem) _) _ e1 in
    let ((version, name), c, e3) = >>=-eq-ok (ok_or (split_underscores base) _) _ e2 in
    let (n, d, e4) = >>=-eq-ok (ok_or (parse_u64 version) _) _ e3 in
    let (id, g, e5) = >>=-eq-ok (new_id n name) _ e4 in
    let same : record { id = id; kind = kind } ≡ _ = ok-injective e5 in
    subst (λ (x : MigrationFilename). IsId x.id) same
      (new_id-IsId n name (parse_u64-IsU64 version (ok_or-eq-ok (parse_u64 version) _ d)) g)
