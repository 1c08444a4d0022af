-- ===== src/Protocol/Framing.antt =====
-- How the decoder treats a buffer that fills up piece by piece.
use babar.Prelude.{
  ℕ, zero, suc, ◌+◌, ◌-◌, ◌≤◌, ◌<◌, ◌≡◌, ◌≢◌, refl, [], ◌∷◌, ◌++◌, Option, none, some, Result, ok,
  length, length-append, length-take, take, take-append-drop, take-append_le, drop-append_le, arith,
  lt→ltb, le→ltb,
}
use babar.Rust.{from_be32, from_be32-be32}
use babar.Error.{Error}
use babar.Protocol.Backend.{Bytes, BackendMessage}
use babar.Protocol.Frame.{decode}
use babar.Protocol.Wire.{put_u32}

-- A proper part of a frame gives no message yet, and the buffer is kept whole.
pub decode_incomplete :
    (tag k : ℕ) (body : Bytes)
    → length body + 4 < 0x1_0000_0000
    → k < length body + 5
    → let src = take k (tag ∷ put_u32 (4 + length body) body) in decode src ≡ (ok none, src)
unfolding decode
decode_incomplete tag zero body fits h = refl
decode_incomplete tag (suc zero) body fits h = refl
decode_incomplete tag (suc (suc zero)) body fits h = refl
decode_incomplete tag (suc (suc (suc zero))) body fits h = refl
decode_incomplete tag (suc (suc (suc (suc zero)))) body fits h = refl
decode_incomplete tag (suc (suc (suc (suc (suc k))))) body fits h = rw (
  from_be32-be32 (4 + length body) (omega arith),
  le→ltb (4 + length body) 4 (omega arith),
  lt→ltb (5 + length (take k body)) (1 + (4 + length body)) (omega (arith, length-take k body)),
)

-- The buffer that is left is the end of the buffer that was there; a message takes five bytes at least.
pub decode_consumes :
    (src : Bytes) (m : BackendMessage) (rest : Bytes)
    → decode src ≡ (ok (some m), rest)
    → (front : Bytes) × (src ≡ front ++ rest) × (5 ≤ length front)
unfolding decode
decode_consumes [] m rest h = ground arith
decode_consumes (tag ∷ a ∷ b ∷ c ∷ d ∷ body) m rest h =
    let n = from_be32 a b c d - 4 in
    (tag ∷ a ∷ b ∷ c ∷ d ∷ take n body, ground (arith, take-append-drop n body), omega arith)
decode_consumes src m rest h = ground arith

-- What has been decoded does not change when more bytes arrive: they join the rest.
pub decode-append :
    (src more : Bytes) (r : Result Error (Option BackendMessage)) (rest : Bytes)
    → decode src ≡ (r, rest)
    → r ≢ ok none
    → decode (src ++ more) ≡ (r, rest ++ more)
unfolding decode
decode-append [] more r rest h n = ground arith
decode-append (tag ∷ a ∷ b ∷ c ∷ d ∷ body) more r rest h n =
    let k = from_be32 a b c d - 4 in
    ground (arith, length-append body more, take-append_le k body more, drop-append_le k body more)
decode-append src more r rest h n = ground arith
