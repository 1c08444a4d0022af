-- ===== src/Protocol/Tests.antt =====
-- Runs of the decoder on the messages of the tests in crates/core/src/protocol/codec.rs, and the
-- theorems at concrete messages.
use babar.Prelude.{◌≤◌, ◌≡◌, ◌≢◌, refl, [], ◌∷◌, ◌++◌, length, none, some, ok, err, arith}
use babar.Rust.{ascii, is_utf8, from_utf8}
use babar.Error.{protocol, frame_too_short, out_of_fuel}
use babar.Protocol.Backend.{
  Bytes, BackendMessage, authentication, sasl_mechanisms, md5_password, ready_for_query, data_row,
}
use babar.Protocol.Reader.{read_u8, read_i16, read_i32, find_nul, repeat}
use babar.Protocol.Decode.{
  decode_tag, decode_body, decode_authentication, decode_auth, decode_auth_code, sasl_loop,
  decode_ready_for_query, decode_data_row, read_column, split_column,
}
use babar.Protocol.Frame.{decode}
use babar.Protocol.Wire.{put_message}
use babar.Protocol.RoundTrip.{decode-put_message}
use babar.Protocol.Framing.{decode_incomplete, decode_consumes, decode-append}
use babar.Protocol.Termination.{decode-ne-out_of_fuel}

-- `Z`, length 5, `I`.
abbrev idle : Bytes
idle = b'Z' ∷ 0 ∷ 0 ∷ 0 ∷ 5 ∷ b'I' ∷ []

decode-idle : decode idle ≡ (ok (some (ready_for_query b'I')), [])
unfolding decode decode_body decode_tag decode_ready_for_query read_u8
decode-idle = refl

decode_partial : decode (b'Z' ∷ 0 ∷ 0 ∷ []) ≡ (ok none, b'Z' ∷ 0 ∷ 0 ∷ [])
unfolding decode
decode_partial = refl

decode_short :
    decode (b'Z' ∷ 0 ∷ 0 ∷ 0 ∷ 3 ∷ [])
    ≡ (err (protocol (frame_too_short 3)), b'Z' ∷ 0 ∷ 0 ∷ 0 ∷ 3 ∷ [])
unfolding decode
decode_short = refl

decode_salt :
    decode (b'R' ∷ 0 ∷ 0 ∷ 0 ∷ 12 ∷ 0 ∷ 0 ∷ 0 ∷ 5 ∷ 0xde ∷ 0xad ∷ 0xbe ∷ 0xef ∷ [])
    ≡ (ok (some (authentication (md5_password 0xde 0xad 0xbe 0xef))), [])
unfolding decode decode_body decode_tag decode_authentication decode_auth decode_auth_code read_i32
decode_salt = refl

abbrev scram : BackendMessage
scram = authentication (sasl_mechanisms (ascii "SCRAM-SHA-256" ∷ []))

decode_sasl : decode (put_message scram (7 ∷ [])) ≡ (ok (some scram), 7 ∷ [])
unfolding decode decode_body decode_tag decode_authentication decode_auth decode_auth_code sasl_loop
    find_nul from_utf8 is_utf8 read_i32
decode_sasl = refl

-- A value and a NULL.
abbrev two_columns : BackendMessage
two_columns = data_row (some (ascii "X") ∷ none ∷ [])

decode_row : decode (put_message two_columns []) ≡ (ok (some two_columns), [])
unfolding decode decode_body decode_tag decode_data_row read_i16 read_i32 repeat read_column
    split_column
decode_row = refl

decode-put_message_example : decode (put_message two_columns idle) ≡ (ok (some two_columns), idle)
decode-put_message_example =
    decode-put_message two_columns idle (omega arith, (omega arith, (tt, tt))) (omega arith)

decode_incomplete_example :
    decode (b'Z' ∷ 0 ∷ 0 ∷ 0 ∷ 5 ∷ []) ≡ (ok none, b'Z' ∷ 0 ∷ 0 ∷ 0 ∷ 5 ∷ [])
decode_incomplete_example = decode_incomplete b'Z' 5 (b'I' ∷ []) (omega arith) (omega arith)

decode_consumes_example : (front : Bytes) × (idle ≡ front ++ []) × (5 ≤ length front)
decode_consumes_example = decode_consumes idle (ready_for_query b'I') [] decode-idle

decode-append_example :
    decode (idle ++ (1 ∷ 2 ∷ [])) ≡ (ok (some (ready_for_query b'I')), 1 ∷ 2 ∷ [])
decode-append_example =
    decode-append idle (1 ∷ 2 ∷ []) (ok (some (ready_for_query b'I'))) [] decode-idle (λ e. cc)

decode-ne-out_of_fuel_example : (decode idle).0 ≢ err out_of_fuel
decode-ne-out_of_fuel_example = decode-ne-out_of_fuel idle
