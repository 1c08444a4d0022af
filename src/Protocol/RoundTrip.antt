-- ===== src/Protocol/RoundTrip.antt =====
-- Decoding what a server sends gives the message back.
use babar.Prelude.{
  ℕ, suc, ◌+◌, ◌-◌, ◌≤◌, ◌<◌, ◌≡◌, ◌≢◌, refl, List, [], ◌∷◌, ◌++◌, String, some, ok, map_ok, length,
  length-append, All, take_front, drop_front, arith, le→ltb, ◌∙◌,
}
use babar.Rust.{ℤ, pos, negsuc, IsI16, IsU32, from_be32-be32}
use babar.Protocol.Backend.{
  Bytes, Text, AuthRequest, auth_ok, cleartext_password, md5_password, sasl_mechanisms,
  sasl_continue, sasl_final, unsupported, BackendMessage, authentication, parameter_status,
  backend_key_data, ready_for_query, row_description, data_row, copy_in_response, command_complete,
  empty_query_response, error_response, notice_response, parse_complete, bind_complete,
  close_complete, no_data, parameter_description, portal_suspended, other,
}
use babar.Protocol.Reader.{Reader, ◌>>=◌, read_u8, read_i16, read_i32, read_u32, repeat}
use babar.Protocol.Decode.{
  to_count, decode_auth_code, decode_auth, read_error_fields, read_row_field, read_column,
  decode_authentication, decode_parameter_status, decode_backend_key_data, decode_ready_for_query,
  decode_row_description, decode_data_row, decode_copy_in_response, decode_command_complete,
  decode_error_response, decode_notice_response, decode_parameter_description, decode_tag,
  decode_body,
}
use babar.Protocol.Frame.{decode}
use babar.Protocol.Wire.{
  put_i16, put_i32, put_u32, put_cstr, put_all, put_counted, put_row_field, put_column,
  put_error_field, put_auth, tag_of, put_body, put_message, IsText, IsCount, IsRowField, IsColumn,
  IsErrorField, IsAuth, IsSendable,
}
use babar.Protocol.Fields.{
  read_i16-put_i16, read_i32-put_i32, read_u32-put_u32, read_cstr-put_cstr, repeat-put_all,
  read_row_field-put_row_field, read_column-put_column, error_fields_loop-put_all,
  sasl_loop-put_all,
}

-- Each field of an error response takes two bytes at least.
length-put_error_fields :
    (fs : List (ℕ × Text)) (rest : Bytes) → length fs ≤ length (put_all put_error_field fs rest)
length-put_error_fields [] rest = omega arith
length-put_error_fields ((c, t) ∷ fs) rest =
    omega (
      arith,
      length-put_error_fields fs rest,
      length-append t (0 ∷ put_all put_error_field fs rest),
    )

length-put_cstrs : (ms : List Text) (rest : Bytes) → length ms ≤ length (put_all put_cstr ms rest)
length-put_cstrs [] rest = omega arith
length-put_cstrs (t ∷ ms) rest =
    omega (arith, length-put_cstrs ms rest, length-append t (0 ∷ put_all put_cstr ms rest))

read_error_fields-put_all :
    (fs : List (ℕ × Text)) (rest : Bytes)
    → All IsErrorField fs
    → read_error_fields (put_all put_error_field fs (0 ∷ rest)) ≡ ok (fs, rest)
unfolding read_error_fields
read_error_fields-put_all fs rest h =
    error_fields_loop-put_all _ fs [] rest (omega (arith, length-put_error_fields fs (0 ∷ rest))) h

decode_auth-put_auth :
    (ms : List Text)
    → All (λ name. (name ≢ []) × IsText name) ms
    → decode_auth_code 10 (put_all put_cstr ms (0 ∷ [])) ≡ ok (sasl_mechanisms ms)
unfolding decode_auth_code
decode_auth-put_auth ms h = rw (
    sasl_loop-put_all (suc (length (put_all put_cstr ms (0 ∷ [])))) ms [] []
      (omega (arith, length-put_cstrs ms (0 ∷ []))) h)

decode_auth-unsupported : (z : ℤ) → IsAuth (unsupported z) → decode_auth z [] ≡ ok (unsupported z)
unfolding decode_auth decode_auth_code
decode_auth-unsupported (pos n) h = ground arith
decode_auth-unsupported (negsuc n) h = refl

decode_authentication-put_auth :
    (r : AuthRequest) → IsAuth r → decode_authentication (put_auth r) ≡ ok (authentication r, [])
unfolding decode_authentication
decode_authentication-put_auth auth_ok h = unfold read_i32 decode_auth decode_auth_code in refl
decode_authentication-put_auth cleartext_password h =
    unfold read_i32 decode_auth decode_auth_code in refl
decode_authentication-put_auth (md5_password a b c d) h =
    unfold read_i32 decode_auth decode_auth_code in refl
decode_authentication-put_auth (sasl_mechanisms ms) h =
    unfold read_i32 decode_auth in rw (decode_auth-put_auth ms h)
decode_authentication-put_auth (sasl_continue bytes) h =
    unfold read_i32 decode_auth decode_auth_code in refl
decode_authentication-put_auth (sasl_final bytes) h =
    unfold read_i32 decode_auth decode_auth_code in refl
decode_authentication-put_auth (unsupported z) h = rw (
  read_i32-put_i32 "Authentication.code" z [] h.0,
  decode_authentication,
  ◌>>=◌,
  decode_auth-unsupported z h,
)

-- A counted list of elements of one kind.
counted :
    {A : Type 0} (m : Reader A) (put : A → Bytes → Bytes) (P : A → Type 0) (c d : String)
    → ((a : A) (rest : Bytes) → P a → m (put a rest) ≡ ok (a, rest))
    → (f : List A → BackendMessage) (xs : List A) → IsCount xs
    → All P xs
    → (read_i16 c >>= λ n. to_count d n >>= λ count. repeat count m >>= λ v buf. ok (f v, buf))
        (put_counted put xs [])
      ≡ ok (f xs, [])
counted m put P c d h f xs n all = rw (
  read_i16-put_i16 c (pos (length xs)) (put_all put xs []) n,
  ◌>>=◌,
  repeat-put_all m put P h xs [] all,
)

-- The arms of `decode_body`, each on the body that the wire format writes.
decode_tag-put_body :
    (m : BackendMessage) → IsSendable m → decode_tag (tag_of m) (put_body m) ≡ ok (m, [])
unfolding decode_tag
decode_tag-put_body (authentication r) h = decode_authentication-put_auth r h
decode_tag-put_body (parameter_status name value) h =
    unfold decode_parameter_status in
    rw (
      read_cstr-put_cstr "ParameterStatus.name" name (put_cstr value []) h.0,
      ◌>>=◌,
      read_cstr-put_cstr "ParameterStatus.value" value [] h.1,
    )
decode_tag-put_body (backend_key_data p s) h =
    unfold decode_backend_key_data in
    rw (
      read_i32-put_i32 "BackendKeyData.process_id" p (put_i32 s []) h.0,
      ◌>>=◌,
      read_i32-put_i32 "BackendKeyData.secret_key" s [] h.1,
    )
decode_tag-put_body (ready_for_query status) h = unfold decode_ready_for_query read_u8 in refl
decode_tag-put_body (row_description fields) h =
    unfold decode_row_description in
    counted read_row_field put_row_field IsRowField "RowDescription.count" "RowDescription count"
      read_row_field-put_row_field row_description fields h.0 h.1
decode_tag-put_body (data_row columns) h =
    unfold decode_data_row in
    counted read_column put_column IsColumn "DataRow.count" "DataRow count" read_column-put_column
      data_row columns h.0 h.1
decode_tag-put_body (copy_in_response f fs) h =
    unfold decode_copy_in_response read_u8 in
    counted (read_i16 "CopyInResponse.column_format") put_i16 IsI16 "CopyInResponse.column_count"
      "CopyInResponse column count" (read_i16-put_i16 "CopyInResponse.column_format")
      (copy_in_response f) fs h.0 h.1
decode_tag-put_body (command_complete tag) h =
    unfold decode_command_complete in rw (read_cstr-put_cstr "CommandComplete.tag" tag [] h, ◌>>=◌)
decode_tag-put_body empty_query_response h = refl
decode_tag-put_body (error_response fields) h =
    unfold decode_error_response in rw (read_error_fields-put_all fields [] h, ◌>>=◌)
decode_tag-put_body (notice_response fields) h =
    unfold decode_notice_response in rw (read_error_fields-put_all fields [] h, ◌>>=◌)
decode_tag-put_body parse_complete h = refl
decode_tag-put_body bind_complete h = refl
decode_tag-put_body close_complete h = refl
decode_tag-put_body no_data h = refl
decode_tag-put_body (parameter_description oids) h =
    unfold decode_parameter_description in
    counted (read_u32 "ParameterDescription.oid") put_u32 IsU32 "ParameterDescription.count"
      "ParameterDescription count" (read_u32-put_u32 "ParameterDescription.oid")
      parameter_description oids h.0 h.1
decode_tag-put_body portal_suspended h = refl
decode_tag-put_body (other tag body) h = ground arith

decode_body-put_body :
    (m : BackendMessage) → IsSendable m → decode_body (tag_of m) (put_body m) ≡ ok m
unfolding decode_body
decode_body-put_body m h = rw (decode_tag-put_body m h)

-- A whole frame is cut off the buffer whatever its body decodes to.
pub decode_frame :
    (tag : ℕ) (body rest : Bytes)
    → length body + 4 < 0x1_0000_0000
    → decode (tag ∷ put_u32 (4 + length body) (body ++ rest))
      ≡ (map_ok some (decode_body tag body), rest)
unfolding decode
decode_frame tag body rest fits = rw (
  from_be32-be32 (4 + length body) (omega arith),
  le→ltb (4 + length body) 4 (omega arith),
  le→ltb (5 + length (body ++ rest)) (1 + (4 + length body))
      (omega (arith, length-append body rest)),
  cancel,
  take_front body rest,
  drop_front body rest,
)
  where
    cancel : 4 + length body - 4 ≡ length body
    cancel = omega arith

-- A message that a server may send, in front of any bytes, is decoded to itself, and the buffer is
-- left with exactly those bytes.
pub decode-put_message :
    (m : BackendMessage) (rest : Bytes)
    → IsSendable m
    → length (put_body m) + 4 < 0x1_0000_0000
    → decode (put_message m rest) ≡ (ok (some m), rest)
decode-put_message m rest h fits =
    decode_frame (tag_of m) (put_body m) rest fits ∙ rw (decode_body-put_body m h)
