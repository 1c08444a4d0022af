-- ===== src/Protocol/Frontend.antt =====
-- crates/core/src/protocol/frontend.rs: the messages that the driver writes. Their bytes are those of
-- the postgres-protocol crate; a message is kept as what it carries.
use babar.Prelude.{ℕ, List, Option}
use babar.Rust.{ℤ}
use babar.Protocol.Backend.{Bytes, Text}

pub data Frontend : Type 0 where
  query : Text → Frontend
  parse : Text → Text → List ℕ → Frontend
  bind : Text → Text → List ℤ → List (Option Bytes) → List ℤ → Frontend
  describe_portal describe_statement : Text → Frontend
  execute : Text → ℤ → Frontend
  close_portal close_statement : Text → Frontend
  copy_data : Bytes → Frontend
  copy_done : Frontend
  copy_fail : Text → Frontend
  sync terminate : Frontend
