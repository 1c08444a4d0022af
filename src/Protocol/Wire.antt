-- ===== src/Protocol/Wire.antt =====
-- The wire format of the server's messages, written from the PostgreSQL protocol and not from the
-- decoder: what a server sends for a message. Each writer puts its bytes in front of those given.
use babar.Prelude.{ℕ, ◌+◌, ◌<◌, ◌≢◌, List, [], ◌∷◌, ◌++◌, Option, none, some, length, All}
use babar.Rust.{ℤ, pos, negsuc, of_i16, of_i32, be16, be32, IsI16, IsI32, IsU32, IsUtf8}
use babar.Protocol.Backend.{
  Bytes, Text, RowField, AuthRequest, auth_ok, cleartext_password, md5_password, sasl_mechanisms,
  sasl_continue, sasl_final, unsupported, BackendMessage, authentication, parameter_status,
  backend_key_data, ready_for_query, row_description, data_row, copy_in_response, command_complete,
  empty_query_response, error_response, notice_response, parse_complete, bind_complete,
  close_complete, no_data, parameter_description, portal_suspended, other,
}

abbrev pub put_i16 : ℤ → Bytes → Bytes
put_i16 z rest = be16 (of_i16 z) ++ rest

abbrev pub put_i32 : ℤ → Bytes → Bytes
put_i32 z rest = be32 (of_i32 z) ++ rest

abbrev pub put_u32 : ℕ → Bytes → Bytes
put_u32 n rest = be32 n ++ rest

abbrev pub put_cstr : Text → Bytes → Bytes
put_cstr s rest = s ++ (0 ∷ rest)

abbrev pub put_all : {A : Type 0} → (A → Bytes → Bytes) → List A → Bytes → Bytes
put_all put [] rest = rest
put_all put (x ∷ xs) rest = put x (put_all put xs rest)

-- A count of 16 bits, and then the elements.
abbrev pub put_counted : {A : Type 0} → (A → Bytes → Bytes) → List A → Bytes → Bytes
put_counted put xs rest = put_i16 (pos (length xs)) (put_all put xs rest)

abbrev pub put_row_field : RowField → Bytes → Bytes
put_row_field f rest = put_cstr f.name (
    put_u32 f.table_oid (
      put_i16 f.column_id (
        put_u32 f.type_oid
          (put_i16 f.type_size (put_i32 f.type_modifier (put_i16 f.format rest))))))

abbrev pub put_column : Option Bytes → Bytes → Bytes
put_column none rest = put_i32 (negsuc 0) rest
put_column (some bytes) rest = put_i32 (pos (length bytes)) (bytes ++ rest)

abbrev pub put_error_field : ℕ × Text → Bytes → Bytes
put_error_field (code, value) rest = code ∷ put_cstr value rest

abbrev pub put_auth : AuthRequest → Bytes
put_auth auth_ok = put_i32 (pos 0) []
put_auth cleartext_password = put_i32 (pos 3) []
put_auth (md5_password a b c d) = put_i32 (pos 5) (a ∷ b ∷ c ∷ d ∷ [])
put_auth (sasl_mechanisms mechs) = put_i32 (pos 10) (put_all put_cstr mechs (0 ∷ []))
put_auth (sasl_continue bytes) = put_i32 (pos 11) bytes
put_auth (sasl_final bytes) = put_i32 (pos 12) bytes
put_auth (unsupported code) = put_i32 code []

abbrev pub tag_of : BackendMessage → ℕ
tag_of (authentication r) = b'R'
tag_of (parameter_status name value) = b'S'
tag_of (backend_key_data p s) = b'K'
tag_of (ready_for_query status) = b'Z'
tag_of (row_description fields) = b'T'
tag_of (data_row columns) = b'D'
tag_of (copy_in_response f fs) = b'G'
tag_of (command_complete tag) = b'C'
tag_of empty_query_response = b'I'
tag_of (error_response fields) = b'E'
tag_of (notice_response fields) = b'N'
tag_of parse_complete = b'1'
tag_of bind_complete = b'2'
tag_of close_complete = b'3'
tag_of no_data = b'n'
tag_of (parameter_description oids) = b't'
tag_of portal_suspended = b's'
tag_of (other tag body) = tag

abbrev pub put_body : BackendMessage → Bytes
put_body (authentication r) = put_auth r
put_body (parameter_status name value) = put_cstr name (put_cstr value [])
put_body (backend_key_data p s) = put_i32 p (put_i32 s [])
put_body (ready_for_query status) = status ∷ []
put_body (row_description fields) = put_counted put_row_field fields []
put_body (data_row columns) = put_counted put_column columns []
put_body (copy_in_response f fs) = f ∷ put_counted put_i16 fs []
put_body (command_complete tag) = put_cstr tag []
put_body (error_response fields) = put_all put_error_field fields (0 ∷ [])
put_body (notice_response fields) = put_all put_error_field fields (0 ∷ [])
put_body (parameter_description oids) = put_counted put_u32 oids []
put_body (other tag body) = body
put_body _ = []

-- The whole message, in front of what follows it on the connection.
abbrev pub put_message : BackendMessage → Bytes → Bytes
put_message m rest = tag_of m ∷ put_u32 (4 + length (put_body m)) (put_body m ++ rest)

abbrev pub IsText : Text → Type 0
IsText s = IsUtf8 s × All (λ b. b ≢ 0) s

abbrev pub IsCount : {A : Type 0} → List A → Type 0
IsCount xs = length xs < 0x8000

pub record IsRowField (f : RowField) : Type 0 where
  pub name : IsText f.name
  pub table_oid : IsU32 f.table_oid
  pub column_id : IsI16 f.column_id
  pub type_oid : IsU32 f.type_oid
  pub type_size : IsI16 f.type_size
  pub type_modifier : IsI32 f.type_modifier
  pub format : IsI16 f.format

abbrev pub IsColumn : Option Bytes → Type 0
IsColumn none = Unit {0}
IsColumn (some bytes) = length bytes < 0x8000_0000

abbrev pub IsErrorField : ℕ × Text → Type 0
IsErrorField (code, value) = (code ≢ 0) × IsText value

abbrev pub IsAuth : AuthRequest → Type 0
IsAuth (sasl_mechanisms mechs) = All (λ name. (name ≢ []) × IsText name) mechs
IsAuth (unsupported code) =
    IsI32 code
    × (code ≢ pos 0)
    × (code ≢ pos 3)
    × (code ≢ pos 5)
    × (code ≢ pos 10)
    × (code ≢ pos 11)
    × (code ≢ pos 12)
IsAuth _ = Unit {0}

-- The tags that the decoder knows.
abbrev pub tags : List ℕ
tags =
    b'R' ∷ b'S' ∷ b'K' ∷ b'Z' ∷ b'T' ∷ b'D' ∷ b'G' ∷ b'C' ∷ b'I' ∷ b'E' ∷ b'N' ∷ b'1' ∷ b'2' ∷ b'3'
    ∷ b'n' ∷ b't' ∷ b's' ∷ []

-- A message that can be sent: its numbers are in range, its lists within their count, its texts are
-- UTF-8 with no NUL inside.
abbrev pub IsSendable : BackendMessage → Type 0
IsSendable (authentication r) = IsAuth r
IsSendable (parameter_status name value) = IsText name × IsText value
IsSendable (backend_key_data p s) = IsI32 p × IsI32 s
IsSendable (row_description fields) = IsCount fields × All IsRowField fields
IsSendable (data_row columns) = IsCount columns × All IsColumn columns
IsSendable (copy_in_response f fs) = IsCount fs × All IsI16 fs
IsSendable (command_complete tag) = IsText tag
IsSendable (error_response fields) = All IsErrorField fields
IsSendable (notice_response fields) = All IsErrorField fields
IsSendable (parameter_description oids) = IsCount oids × All IsU32 oids
IsSendable (other tag body) = All (λ t. tag ≢ t) tags
IsSendable _ = Unit {0}
