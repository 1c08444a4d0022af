-- ===== src/Session/Driver/State.antt =====
-- The driver's commands, its state, and the state of the command in flight. A reply channel is a
-- number; `replies` lists what has been sent on the channels.
use babar.Prelude.{ℕ, List, [], ◌∷◌, ◌++◌, Option, Bool, Result}
use babar.Rust.{ℤ}
use babar.Error.{Error}
use babar.Protocol.Backend.{Bytes, Text, RowField}
use babar.Protocol.Frontend.{Frontend}

abbrev pub RawRows : Type 0
RawRows = List (List (Option Bytes))

-- What a successful command gives its caller.
pub data Reply : Type 0 where
  result_sets : List RawRows → Reply
  extended_outcome : RawRows → Option Text → Reply
  copy_in_outcome : Text → Reply
  prepare_outcome : List ℕ → List RowField → Reply
  portal_batch : RawRows → Bool → Reply
  done : Reply

pub data Command : Type 0 where
  simple_query : (sql : Text) (reply : ℕ) → Command
  extended_query :
      (sql : Text) (params : List (Option Bytes)) (param_formats result_formats : List ℤ)
      (expected_columns : Option ℕ) (reply : ℕ)
      → Command
  copy_in : (sql : Text) (payload : List Bytes) (reply : ℕ) → Command
  prepare : (name sql : Text) (param_oids : List ℕ) (reply : ℕ) → Command
  execute_prepared :
      (stmt_name : Text) (params : List (Option Bytes)) (param_formats result_formats : List ℤ)
      (expected_columns : Option ℕ) (reply : ℕ)
      → Command
  bind_portal :
      (portal_name stmt_name : Text) (params : List (Option Bytes))
      (param_formats result_formats : List ℤ) (reply : ℕ)
      → Command
  execute_portal : (portal_name : Text) (max_rows : ℤ) (reply : ℕ) → Command
  close_portal close_statement : (name : Text) (reply : ℕ) → Command
  close : (reply : ℕ) → Command

abbrev pub reply_of : Command → ℕ
reply_of (simple_query sql r) = r
reply_of (extended_query sql ps pf rf ec r) = r
reply_of (copy_in sql chunks r) = r
reply_of (prepare name sql oids r) = r
reply_of (execute_prepared name ps pf rf ec r) = r
reply_of (bind_portal p s ps pf rf r) = r
reply_of (execute_portal p n r) = r
reply_of (close_portal name r) = r
reply_of (close_statement name r) = r
reply_of (close r) = r

pub record SimpleQuery : Type 0 where
  pub reply : ℕ
  pub results : List RawRows
  pub current_rows : RawRows
  pub current_fields : Option (List RowField)
  pub error : Option Error

pub record Extended : Type 0 where
  pub reply : ℕ
  pub expected_columns : Option ℕ
  pub rows : RawRows
  pub command_tag : Option Text
  pub error : Option Error

pub record CopyIn : Type 0 where
  pub reply : ℕ
  pub payload : List Bytes
  pub command_tag : Option Text
  pub error : Option Error

pub record Prepare : Type 0 where
  pub reply : ℕ
  pub param_oids : Option (List ℕ)
  pub row_fields : Option (List RowField)
  pub error : Option Error

pub record ExecutePortal : Type 0 where
  pub reply : ℕ
  pub rows : RawRows
  pub has_more : Bool
  pub error : Option Error

-- `BindPortal`, `ClosePortal` and `CloseStatement`.
pub record Plain : Type 0 where
  pub reply : ℕ
  pub error : Option Error

-- The channel of a pending `Close` is a fresh one that nobody listens to.
pub data Pending : Type 0 where
  simple_query : SimpleQuery → Pending
  extended execute_prepared : Extended → Pending
  copy_in : CopyIn → Pending
  prepare : Prepare → Pending
  execute_portal : ExecutePortal → Pending
  bind_portal close_portal close_statement : Plain → Pending
  close : Pending

-- `sent` are the messages of the flushes that succeeded. `accepting` is false once the inbox is closed, and
-- `running` once the loop has ended.
pub record Driver : Type 0 where
  pub pending : Option Pending
  pub transaction_status : ℕ
  pub inbox : List Command
  pub accepting : Bool
  pub running : Bool
  pub sent : List Frontend
  pub replies : List (ℕ × Result Error Reply)

-- `reply.send(r)`.
abbrev pub answer : Driver → ℕ → Result Error Reply → Driver
answer d id r = record d { replies = d.replies ++ ((id, r) ∷ []) }
