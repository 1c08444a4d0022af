-- ===== src/Codec/Interface.antt =====
-- crates/core/src/codec/mod.rs: `Encoder`, `Decoder` and `Codec`, and the laws of a codec.
use babar.Prelude.{ℕ, List, ◌++◌, ◌≡◌, Option, Result, ok, length}
use babar.Error.{Error}

-- A parameter or a column: none is NULL.
abbrev pub Cell : Type 0
Cell = Option (List ℕ)

-- `decode` may take it that it gets `n_columns` columns at least: the code panics on fewer, or errs.
pub record Codec (A : Type 0) : Type 0 where
  pub encode : A → (params : List Cell) → Result Error (List Cell)
  pub decode : (columns : List Cell) → Result Error A
  pub n_columns : ℕ
  pub oids : List ℕ
  pub format_codes : List ℕ

-- What a codec promises for the values of a predicate: it declares an OID and a format for each of its
-- columns; it appends that many parameters; and it decodes them to the value it has encoded.
pub record IsLawful {A : Type 0} (c : Codec A) (IsValue : A → Type 0) : Type 0 where
  pub oids_length : length c.oids ≡ c.n_columns
  pub formats_length : length c.format_codes ≡ c.n_columns
  pub round_trip :
      (v : A)
      → IsValue v
      → (cells : List Cell) × (length cells ≡ c.n_columns)
        × ((params : List Cell) → c.encode v params ≡ ok (params ++ cells))
        × (c.decode cells ≡ ok v)
