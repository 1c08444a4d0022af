-- ===== src/Protocol/Backend.antt =====
-- crates/core/src/protocol/backend.rs: the decoded messages. A `Bytes` or a `String` is a list of
-- bytes.
use babar.Prelude.{ℕ, List, Option}
use babar.Rust.{ℤ}

abbrev pub Bytes : Type 0
Bytes = List ℕ

abbrev pub Text : Type 0
Text = List ℕ

pub record RowField : Type 0 where
  pub name : Text
  pub table_oid : ℕ
  pub column_id : ℤ
  pub type_oid : ℕ
  pub type_size : ℤ
  pub type_modifier : ℤ
  pub format : ℤ

pub data AuthRequest : Type 0 where
  auth_ok : AuthRequest
  cleartext_password : AuthRequest
  md5_password : ℕ → ℕ → ℕ → ℕ → AuthRequest
  sasl_mechanisms : List Text → AuthRequest
  sasl_continue : Bytes → AuthRequest
  sasl_final : Bytes → AuthRequest
  unsupported : ℤ → AuthRequest

pub data BackendMessage : Type 0 where
  authentication : AuthRequest → BackendMessage
  parameter_status : Text → Text → BackendMessage
  backend_key_data : ℤ → ℤ → BackendMessage
  ready_for_query : ℕ → BackendMessage
  row_description : List RowField → BackendMessage
  data_row : List (Option Bytes) → BackendMessage
  copy_in_response : ℕ → List ℤ → BackendMessage
  command_complete : Text → BackendMessage
  empty_query_response : BackendMessage
  error_response : List (ℕ × Text) → BackendMessage
  notice_response : List (ℕ × Text) → BackendMessage
  parse_complete bind_complete close_complete no_data : BackendMessage
  parameter_description : List ℕ → BackendMessage
  portal_suspended : BackendMessage
  other : ℕ → Bytes → BackendMessage
