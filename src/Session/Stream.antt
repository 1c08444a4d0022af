-- ===== src/Session/Stream.antt =====
-- crates/core/src/session/stream.rs: a stream of rows, which a task fetches from a portal batch by batch.
pub mod Rows
mod Tests
use babar.Prelude.{
  ℕ, zero, suc, List, [], ◌∷◌, ◌++◌, Option, none, some, Bool, true, false, Result, ok, err, ltb,
  leb, ◌==◌, if◌then◌else◌,
}
use babar.Rust.{ascii}
use babar.Error.{Error, closed, config, no_context}
use babar.Codec.Interface.{Cell}

-- The commands to the driver, sent or, when it is gone, in vain.
pub data StreamCommand : Type 0 where
  bind_portal execute_portal close_portal close_statement commit_transaction : StreamCommand

pub record Batch : Type 0 where
  pub rows : List (List Cell)
  pub has_more : Bool

pub record StreamConfig (B : Type 0) : Type 0 where
  pub decoder : List Cell → Result Error B
  pub close_statement_on_finish : Bool
  pub close_transaction_on_finish : Bool

-- What is put into the receiver's channel, and the commands.
pub record Driven (B : Type 0) : Type 0 where
  pub items : List (Result Error B)
  pub commands : List StreamCommand

-- None when the driver is gone and drops the channel of its reply.
abbrev pub Reply : Type 0 → Type 0
Reply A = Option (Result Error A)

module _ {B : Type 0} (c : StreamConfig B) where
  abbrev close_statement_if : List StreamCommand → List StreamCommand
  close_statement_if later = if c.close_statement_on_finish then close_statement ∷ later else later

  -- What follows the portal's end, and every error of `start`.
  abbrev pub finish_stream : List StreamCommand
  finish_stream =
      close_statement_if (if c.close_transaction_on_finish then commit_transaction ∷ [] else [])

  abbrev pub cleanup_stream : List StreamCommand
  cleanup_stream = close_portal ∷ finish_stream

  abbrev pub stops : List (Result Error B) → Driven B
  stops items = record { items = items; commands = cleanup_stream }

  abbrev executed : Driven B → Driven B
  executed d = record d { commands = execute_portal ∷ d.commands }

  abbrev send_row : Result Error B → Driven B → Driven B
  send_row (err e) more = stops (err e ∷ [])
  send_row (ok row) more = record more { items = ok row ∷ more.items }

  -- The loop over the rows of a batch. The receiver is there for so many looks at it, by `is_closed` and by
  -- `send`, and then gone.
  unfoldable pub rows_loop : List (List Cell) → (looks : ℕ) → (ℕ → Driven B) → Driven B
  rows_loop [] looks next = next looks
  rows_loop (columns ∷ rows) zero next = stops []
  rows_loop (columns ∷ rows) (suc zero) next = stops []
  rows_loop (columns ∷ rows) (suc (suc looks)) next =
      send_row (c.decoder columns) (rows_loop rows looks next)

  abbrev pub after_batch : Bool → Driven B → Driven B
  after_batch true more = more
  after_batch false more = stops []

  abbrev pub send_error : Error → (looks : ℕ) → Driven B
  send_error e zero = stops []
  send_error e (suc looks) = stops (err e ∷ [])

  -- The loop over the batches, with the replies to each `ExecutePortal`; behind the last of them the
  -- driver is gone.
  unfoldable pub drive_stream : List (Reply Batch) → (looks : ℕ) → Driven B
  drive_stream replies zero = stops []
  drive_stream [] (suc looks) = send_error (closed no_context) looks
  drive_stream (none ∷ replies) (suc looks) = executed (send_error (closed no_context) looks)
  drive_stream (some (err e) ∷ replies) (suc looks) = executed (send_error e looks)
  drive_stream (some (ok batch) ∷ replies) (suc looks) =
      executed (
        rows_loop batch.rows looks (λ left. after_batch batch.has_more (drive_stream replies left)))

  -- The reply to `BindPortal`, none when it could not be sent or is not answered.
  abbrev bound_portal : Reply (Unit {0}) → Result Error (Unit {0})
  bound_portal none = err (closed no_context)
  bound_portal (some r) = r

  abbrev pub opened : Result Error (Unit {0}) → Result Error (Unit {0}) × List StreamCommand
  opened (ok u) = (ok tt, bind_portal ∷ [])
  opened (err e) = (err e, bind_portal ∷ finish_stream)

  -- `RowStream::start`: the stream runs, or the error; and the commands up to there.
  unfoldable pub start_stream :
      (batch_rows : ℕ) → Reply (Unit {0}) → Result Error (Unit {0}) × List StreamCommand
  start_stream batch_rows reply =
      if batch_rows == 0
      then (err (config (ascii "stream batch size must be greater than zero")), finish_stream)
      else if leb 0x8000_0000 batch_rows
      then (err (config (ascii "stream batch size exceeds i32::MAX")), finish_stream)
      else opened (bound_portal reply)
