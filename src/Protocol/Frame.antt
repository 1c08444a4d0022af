-- ===== src/Protocol/Frame.antt =====
-- crates/core/src/protocol/codec.rs: `BackendCodec::decode`, which cuts one message off the buffer.
-- It returns its result and the buffer that it leaves. A frame is a tag, a length of four bytes that
-- counts itself, and the body.
use babar.Prelude.{
  ◌+◌, ◌-◌, ◌∷◌, Option, none, some, Result, ok, err, map_ok, length, take, drop, ltb,
  if◌then◌else◌,
}
use babar.Rust.{from_be32}
use babar.Error.{Error, protocol, frame_too_short}
use babar.Protocol.Backend.{Bytes, BackendMessage}
use babar.Protocol.Decode.{decode_body}

unfoldable pub decode : Bytes → Result Error (Option BackendMessage) × Bytes
decode (tag ∷ a ∷ b ∷ c ∷ d ∷ rest) =
    let len = from_be32 a b c d in
    if ltb len 4
    then (err (protocol (frame_too_short len)), tag ∷ a ∷ b ∷ c ∷ d ∷ rest)
    else if ltb (5 + length rest) (1 + len)
    then (ok none, tag ∷ a ∷ b ∷ c ∷ d ∷ rest)
    else (map_ok some (decode_body tag (take (len - 4) rest)), drop (len - 4) rest)
decode src = (ok none, src)
