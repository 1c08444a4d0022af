-- ===== src/Codec/Nullable.antt =====
-- crates/core/src/codec/nullable.rs: `nullable`.
use babar.Prelude.{
  ℕ, zero, suc, ◌≡◌, refl, List, [], ◌∷◌, ◌++◌, Option, none, some, Bool, true, false, Result, ok,
  map_ok, length, take, take_all, all, if◌then◌else◌, arith, ap, ◌∙◌,
}
use babar.Error.{Error}
use babar.Codec.Interface.{Cell, Codec, IsLawful}

abbrev pub is_null : Cell → Bool
is_null none = true
is_null (some bytes) = false

abbrev pub nulls : ℕ → List Cell
nulls zero = []
nulls (suc n) = none ∷ nulls n

module _ {A : Type 0} (c : Codec A) where
  -- One NULL for each OID.
  abbrev encode_option : Option A → List Cell → Result Error (List Cell)
  encode_option none params = ok (params ++ nulls (length c.oids))
  encode_option (some v) params = c.encode v params

  abbrev decode_option : List Cell → Result Error (Option A)
  decode_option columns =
      if all is_null (take c.n_columns columns) then ok none else map_ok some (c.decode columns)

  unfoldable pub nullable : Codec (Option A)
  nullable = record {
    encode = encode_option;
    decode = decode_option;
    n_columns = c.n_columns;
    oids = c.oids;
    format_codes = c.format_codes;
  }

length-nulls : (n : ℕ) → length (nulls n) ≡ n
length-nulls zero = refl
length-nulls (suc n) = ap suc (length-nulls n)

all-nulls : (n : ℕ) → all is_null (nulls n) ≡ true
all-nulls zero = refl
all-nulls (suc n) = all-nulls n

-- A value whose cells are all NULL cannot be told from none, as that of a nullable codec in another.
abbrev pub IsShown : {A : Type 0} → Codec A → (A → Type 0) → Option A → Type 0
IsShown c IsValue none = Unit
IsShown c IsValue (some v) =
    IsValue v × ((cells : List Cell) → c.encode v [] ≡ ok cells → all is_null cells ≡ false)

-- A nullable codec is lawful when the codec in it is, for none and for the values of which not every
-- cell is NULL.
pub nullable-IsLawful :
    {A : Type 0} (c : Codec A) (IsValue : A → Type 0)
    → IsLawful c IsValue
    → IsLawful (nullable c) (IsShown c IsValue)
unfolding nullable
nullable-IsLawful c IsValue l = record {
  oids_length = l.oids_length;
  formats_length = l.formats_length;
  round_trip = round_trip_option;
}
  where
    whole : (cells : List Cell) → length cells ≡ c.n_columns → take c.n_columns cells ≡ cells
    whole cells e = take_all c.n_columns cells (omega (arith, e))

    round_trip_option :
        (v : Option _)
        → IsShown c IsValue v
        → (cells : List Cell) × (length cells ≡ c.n_columns)
          × ((params : List Cell) → (nullable c).encode v params ≡ ok (params ++ cells))
          × ((nullable c).decode cells ≡ ok v)
    round_trip_option none u =
        let cells = nulls (length c.oids) in
        let e = length-nulls (length c.oids) ∙ l.oids_length in
        (cells, e, λ params. refl, rw (whole cells e, all-nulls (length c.oids)) refl)
    round_trip_option (some v) (h, shown) =
        let (cells, e, enc, dec) = l.round_trip v h in
        (cells, e, enc, rw (whole cells e, shown cells (enc []), dec) refl)
