-- ===== src/Protocol/Decode.antt =====
-- crates/core/src/protocol/codec.rs: `decode_body`, one function for each arm of its match.
use babar.Prelude.{
  ℕ, zero, suc, List, [], ◌∷◌, ◌++◌, String, Option, none, some, true, false, Result, ok, err,
  ok_or, map_ok, length, take, drop, ltb, ◌==◌, if◌then◌else◌,
}
use babar.Rust.{ℤ, pos, negsuc, from_utf8}
use babar.Error.{
  Error, protocol, out_of_fuel, negative_count, column_length_below, column_truncated, salt_length,
  sasl_unterminated, sasl_mechanism_unterminated, sasl_mechanism_not_utf8,
}
use babar.Protocol.Backend.{
  Bytes, Text, RowField, AuthRequest, auth_ok, cleartext_password, md5_password, sasl_mechanisms,
  sasl_continue, sasl_final, unsupported, BackendMessage, authentication, parameter_status,
  backend_key_data, ready_for_query, row_description, data_row, copy_in_response, command_complete,
  empty_query_response, error_response, notice_response, parse_complete, bind_complete,
  close_complete, no_data, parameter_description, portal_suspended, other,
}
use babar.Protocol.Reader.{
  Reader, ◌>>=◌, pure, fail, read_u8, read_i16, read_i32, read_u32, read_cstr, repeat, find_nul,
}
use babar.Prelude.{◌>>=◌ as bind_result}

-- `usize::try_from(i16)`, with the error that the arm gives it.
abbrev pub to_count : String → ℤ → Reader ℕ
to_count ctx (pos n) = pure n
to_count ctx (negsuc n) = fail (negative_count ctx (negsuc n))

-- Each round takes two bytes at least, so `length rest` rounds are enough.
unfoldable pub sasl_loop : ℕ → List Text → Bytes → Result Error (List Text)
sasl_loop zero mechs rest = err out_of_fuel
sasl_loop (suc fuel) mechs [] = err (protocol sasl_unterminated)
sasl_loop (suc fuel) mechs (b ∷ bs) = elim (b == 0) [
  | true ↦ ok mechs
  | false ↦ bind_result (ok_or (find_nul (b ∷ bs)) (protocol sasl_mechanism_unterminated)) λ nul.
      bind_result (ok_or (from_utf8 (take nul (b ∷ bs))) (protocol sasl_mechanism_not_utf8))
        λ name. sasl_loop fuel (mechs ++ (name ∷ [])) (drop (suc nul) (b ∷ bs))
]

abbrev pub md5_salt : Bytes → Result Error AuthRequest
md5_salt (a ∷ b ∷ c ∷ d ∷ []) = ok (md5_password a b c d)
md5_salt body = err (protocol (salt_length (length body)))

unfoldable pub decode_auth_code : ℕ → Bytes → Result Error AuthRequest
decode_auth_code code body =
    if code == 0
    then ok auth_ok
    else if code == 3
    then ok cleartext_password
    else if code == 5
    then md5_salt body
    else if code == 10
    then map_ok sasl_mechanisms (sasl_loop (suc (length body)) [] body)
    else if code == 11
    then ok (sasl_continue body)
    else if code == 12
    then ok (sasl_final body)
    else ok (unsupported (pos code))

unfoldable pub decode_auth : ℤ → Bytes → Result Error AuthRequest
decode_auth (pos code) body = decode_auth_code code body
decode_auth (negsuc n) body = ok (unsupported (negsuc n))

unfoldable pub error_fields_loop : ℕ → List (ℕ × Text) → Reader (List (ℕ × Text))
error_fields_loop zero fields = λ buf. err out_of_fuel
error_fields_loop (suc fuel) fields = do
  code ← read_u8 "ErrorResponse.field.code"
  elim (code == 0) [
    | true ↦ pure fields
    | false ↦ do
      value ← read_cstr "ErrorResponse.field.value"
      error_fields_loop fuel (fields ++ ((code, value) ∷ []))
  ]

unfoldable pub read_error_fields : Reader (List (ℕ × Text))
read_error_fields buf = error_fields_loop (suc (length buf)) [] buf

unfoldable pub read_row_field : Reader RowField
read_row_field = do
  name ← read_cstr "RowDescription.field.name"
  table_oid ← read_u32 "RowDescription.field.table_oid"
  column_id ← read_i16 "RowDescription.field.column_id"
  type_oid ← read_u32 "RowDescription.field.type_oid"
  type_size ← read_i16 "RowDescription.field.type_size"
  type_modifier ← read_i32 "RowDescription.field.type_modifier"
  format ← read_i16 "RowDescription.field.format"
  pure (record {
    name = name;
    table_oid = table_oid;
    column_id = column_id;
    type_oid = type_oid;
    type_size = type_size;
    type_modifier = type_modifier;
    format = format;
  })

-- `body.split_to(len)` behind the test of its length.
unfoldable pub split_column : ℕ → Reader (Option Bytes)
split_column len body =
    if ltb (length body) len
    then err (protocol column_truncated)
    else ok (some (take len body), drop len body)

-- A length of -1 is `negsuc 0`.
abbrev pub column_of_length : ℤ → Reader (Option Bytes)
column_of_length (pos len) = split_column len
column_of_length (negsuc zero) = pure none
column_of_length (negsuc (suc n)) = fail (column_length_below (negsuc (suc n)))

unfoldable pub read_column : Reader (Option Bytes)
read_column = do len ← read_i32 "DataRow.column.length"; column_of_length len

unfoldable pub decode_authentication : Reader BackendMessage
decode_authentication = do
  code ← read_i32 "Authentication.code"
  λ body. map_ok (λ a. (authentication a, [])) (decode_auth code body)

unfoldable pub decode_parameter_status : Reader BackendMessage
decode_parameter_status = do
  name ← read_cstr "ParameterStatus.name"
  value ← read_cstr "ParameterStatus.value"
  pure (parameter_status name value)

unfoldable pub decode_backend_key_data : Reader BackendMessage
decode_backend_key_data = do
  process_id ← read_i32 "BackendKeyData.process_id"
  secret_key ← read_i32 "BackendKeyData.secret_key"
  pure (backend_key_data process_id secret_key)

unfoldable pub decode_ready_for_query : Reader BackendMessage
decode_ready_for_query = do status ← read_u8 "ReadyForQuery.status"; pure (ready_for_query status)

unfoldable pub decode_row_description : Reader BackendMessage
decode_row_description = do
  n ← read_i16 "RowDescription.count"
  count ← to_count "RowDescription count" n
  fields ← repeat count read_row_field
  pure (row_description fields)

unfoldable pub decode_data_row : Reader BackendMessage
decode_data_row = do
  n ← read_i16 "DataRow.count"
  count ← to_count "DataRow count" n
  columns ← repeat count read_column
  pure (data_row columns)

unfoldable pub decode_copy_in_response : Reader BackendMessage
decode_copy_in_response = do
  overall_format ← read_u8 "CopyInResponse.overall_format"
  n ← read_i16 "CopyInResponse.column_count"
  count ← to_count "CopyInResponse column count" n
  column_formats ← repeat count (read_i16 "CopyInResponse.column_format")
  pure (copy_in_response overall_format column_formats)

unfoldable pub decode_command_complete : Reader BackendMessage
decode_command_complete = do tag ← read_cstr "CommandComplete.tag"; pure (command_complete tag)

unfoldable pub decode_error_response : Reader BackendMessage
decode_error_response = do fields ← read_error_fields; pure (error_response fields)

unfoldable pub decode_notice_response : Reader BackendMessage
decode_notice_response = do fields ← read_error_fields; pure (notice_response fields)

unfoldable pub decode_parameter_description : Reader BackendMessage
decode_parameter_description = do
  n ← read_i16 "ParameterDescription.count"
  count ← to_count "ParameterDescription count" n
  type_oids ← repeat count (read_u32 "ParameterDescription.oid")
  pure (parameter_description type_oids)

-- The match of `decode_body` on the tag byte.
unfoldable pub decode_tag : ℕ → Reader BackendMessage
decode_tag tag =
    if tag == b'R'
    then decode_authentication
    else if tag == b'S'
    then decode_parameter_status
    else if tag == b'K'
    then decode_backend_key_data
    else if tag == b'Z'
    then decode_ready_for_query
    else if tag == b'T'
    then decode_row_description
    else if tag == b'D'
    then decode_data_row
    else if tag == b'G'
    then decode_copy_in_response
    else if tag == b'C'
    then decode_command_complete
    else if tag == b'I'
    then pure empty_query_response
    else if tag == b'E'
    then decode_error_response
    else if tag == b'N'
    then decode_notice_response
    else if tag == b'1'
    then pure parse_complete
    else if tag == b'2'
    then pure bind_complete
    else if tag == b'3'
    then pure close_complete
    else if tag == b'n'
    then pure no_data
    else if tag == b't'
    then decode_parameter_description
    else if tag == b's'
    then pure portal_suspended
    else (λ body. ok (other tag body, []))

-- Bytes of the body behind the message's fields are dropped.
unfoldable pub decode_body : ℕ → Bytes → Result Error BackendMessage
decode_body tag body = map_ok (λ r. r.0) (decode_tag tag body)
