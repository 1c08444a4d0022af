-- ===== src/Protocol/Reader.antt =====
-- crates/core/src/protocol/codec.rs, lines 253-292: the reads of one field. A reader takes the rest
-- of the body and returns what it read with the bytes behind it.
use babar.Prelude.{
  ℕ, zero, suc, List, [], ◌∷◌, String, Option, none, some, Result, ok, err, ok_or, take, drop, ◌==◌,
  if◌then◌else◌,
}
use babar.Prelude.{◌>>=◌ as bind_result}
use babar.Rust.{ℤ, to_i16, to_i32, from_be16, from_be32, from_utf8}
use babar.Error.{Error, Message, protocol, out_of_bytes, missing_nul, not_utf8}
use babar.Protocol.Backend.{Bytes, Text}

abbrev pub Reader : Type 0 → Type 0
Reader A = Bytes → Result Error (A × Bytes)

infixl 5 ◌>>=◌
abbrev pub ◌>>=◌ : {A B : Type 0} → Reader A → (A → Reader B) → Reader B
◌>>=◌ m f buf = elim (m buf) [ err e ↦ err e | ok (a, rest) ↦ f a rest ]

abbrev pub pure : {A : Type 0} → A → Reader A
pure a buf = ok (a, buf)

abbrev pub fail : {A : Type 0} → Message → Reader A
fail m buf = err (protocol m)

unfoldable pub read_u8 : String → Reader ℕ
read_u8 ctx [] = err (protocol (out_of_bytes ctx))
read_u8 ctx (a ∷ rest) = ok (a, rest)

unfoldable pub read_i16 : String → Reader ℤ
read_i16 ctx (a ∷ b ∷ rest) = ok (to_i16 (from_be16 a b), rest)
read_i16 ctx _ = err (protocol (out_of_bytes ctx))

unfoldable pub read_i32 : String → Reader ℤ
read_i32 ctx (a ∷ b ∷ c ∷ d ∷ rest) = ok (to_i32 (from_be32 a b c d), rest)
read_i32 ctx _ = err (protocol (out_of_bytes ctx))

unfoldable pub read_u32 : String → Reader ℕ
read_u32 ctx (a ∷ b ∷ c ∷ d ∷ rest) = ok (from_be32 a b c d, rest)
read_u32 ctx _ = err (protocol (out_of_bytes ctx))

-- `iter().position(|&b| b == 0)`.
unfoldable pub find_nul : Bytes → Option ℕ
find_nul [] = none
find_nul (b ∷ bs) =
    if b == 0 then some 0 else elim (find_nul bs) [ none ↦ none | some n ↦ some (suc n) ]

unfoldable pub read_cstr : String → Reader Text
read_cstr ctx buf = bind_result (ok_or (find_nul buf) (protocol (missing_nul ctx))) λ nul.
    bind_result (ok_or (from_utf8 (take nul buf)) (protocol (not_utf8 ctx)))
      λ s. ok (s, drop (suc nul) buf)

-- `for _ in 0..count { v.push(…) }`
unfoldable pub repeat : {A : Type 0} → ℕ → Reader A → Reader (List A)
repeat zero m = pure []
repeat (suc n) m = do a ← m; rest ← repeat n m; pure (a ∷ rest)
