-- ===== src/Codec/Primitive.antt =====
-- crates/core/src/codec/primitive.rs. A message leaves out the reason that the standard library gives.
use babar.Prelude.{ℕ, List, [], ◌∷◌, ◌++◌, none, some, Result, ok, err, ◌>>=◌, ok_or}
use babar.Rust.{from_utf8, ascii}
use babar.Error.{Error, codec}
use babar.Codec.Interface.{Cell}

abbrev pub primitive_bytes : (type_name : List ℕ) → List Cell → Result Error (List ℕ)
primitive_bytes name [] = err (
    codec (name ++ ascii ": decoder needs 1 column, got 0; this is a driver bug if it reached you"))
primitive_bytes name (none ∷ columns) =
    err (codec (name ++ ascii ": unexpected NULL; use nullable() to allow it"))
primitive_bytes name (some bytes ∷ columns) = ok bytes

abbrev pub utf8_text : (type_name : List ℕ) → List ℕ → Result Error (List ℕ)
utf8_text name bytes = ok_or (from_utf8 bytes) (codec (name ++ ascii ": column not UTF-8"))

abbrev pub primitive_str : (type_name : List ℕ) → List Cell → Result Error (List ℕ)
primitive_str name columns = primitive_bytes name columns >>= utf8_text name
