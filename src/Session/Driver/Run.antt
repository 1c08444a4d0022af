-- ===== src/Session/Driver/Run.antt =====
-- `start`, `on_message`, `fail_pending` and the loop `run`, as a function on the events that reach the
-- driver. What the socket does is part of an event: `none` for a write that succeeds, `some e` for one
-- that fails. `reject` is the encoder of the postgres-protocol crate: the error by which it refuses a
-- message, if it does.
use babar.Prelude.{
  ℕ, String, List, [], ◌∷◌, ◌++◌, map, Option, none, some, Bool, true, false, ◌&&◌, Result, ok, err,
  all, ◌==◌, if◌then◌else◌,
}
use babar.Rust.{ℤ, pos, negsuc, ascii}
use babar.Error.{Error, protocol, closed, copy_format, no_context, or_set, clone_for_caller}
use babar.Protocol.Backend.{Bytes, BackendMessage, ready_for_query, copy_in_response}
use babar.Protocol.Frontend.{
  Frontend, query, parse, bind, describe_portal, describe_statement, execute, copy_data, copy_done,
  copy_fail, sync, terminate,
}
use babar.Session.Driver.State.{
  Reply, done, Command, reply_of, Extended, CopyIn, Plain, Pending, Driver, answer,
}
use babar.Session.Driver.Advance.{Advance, waits, answers, advance}

pub data Event : Type 0 where
  -- A caller puts a command into the inbox.
  send : Command → Event
  -- The loop takes the next command; the results of the flush and of the socket's shutdown.
  take_command : (flush shut : Option Error) → Event
  -- All senders are gone.
  hang_up : (flush : Option Error) → Event
  -- The decoder yields a message; the result of the flush that it may lead to.
  received : BackendMessage → (flush : Option Error) → Event
  -- The decoder or the socket fails; the socket is at its end.
  broken : Error → Event
  eof : Event

abbrev pub pending_reply : Pending → Option ℕ
pending_reply (Pending.simple_query p) = some p.reply
pending_reply (Pending.extended p) = some p.reply
pending_reply (Pending.execute_prepared p) = some p.reply
pending_reply (Pending.copy_in p) = some p.reply
pending_reply (Pending.prepare p) = some p.reply
pending_reply (Pending.execute_portal p) = some p.reply
pending_reply (Pending.bind_portal p) = some p.reply
pending_reply (Pending.close_portal p) = some p.reply
pending_reply (Pending.close_statement p) = some p.reply
pending_reply Pending.close = none

-- `fail_command` on each command of the inbox, which is closed.
unfoldable pub fail_inbox : Driver → List Command → Driver
fail_inbox d [] = record d { inbox = []; accepting = false }
fail_inbox d (c ∷ cs) = fail_inbox (answer d (reply_of c) (err (closed no_context))) cs

abbrev pub fail_in_flight : Driver → Option Pending → Error → Driver
fail_in_flight d none e = d
fail_in_flight d (some p) e = elim (pending_reply p) [
  | none ↦ record d { pending = none }
  | some id ↦ answer (record d { pending = none }) id (err e)
]

-- `fail_pending`, and the end of the loop.
unfoldable pub fail_pending : Driver → Error → Driver
fail_pending d e = fail_inbox (record (fail_in_flight d d.pending e) { running = false }) d.inbox

abbrev pub is_binary : ℤ → Bool
is_binary (pos n) = n == 1
is_binary (negsuc n) = false

abbrev pub set_transaction_status : Driver → BackendMessage → Driver
set_transaction_status d (ready_for_query status) = record d { transaction_status = status }
set_transaction_status d _ = d

abbrev pub apply : Driver → Advance → Driver
apply d (waits p) = record d { pending = some p }
apply d (answers id r) = answer (record d { pending = none }) id r

module _ (reject : Frontend → Option Error) where
  -- The first message of a batch that cannot be encoded.
  unfoldable pub first_rejected : List Frontend → Option Error
  first_rejected [] = none
  first_rejected (m ∷ ms) = or_set (reject m) (first_rejected ms)

  -- The common part of the arms of `start`: encode the messages, then those that always encode, flush,
  -- and put the command in flight.
  unfoldable pub launch :
      Driver → ℕ → List Frontend → List Frontend → Pending → Option Error → Driver
  launch d id batch tail p flush = elim (first_rejected batch) [
    | some e ↦ answer d id (err e)
    | none ↦ elim flush [
      | some e ↦ answer d id (err (clone_for_caller e))
      | none ↦ record d { sent = d.sent ++ (batch ++ tail); pending = some p }
    ]
  ]

  -- The result of the flush, and then of the shutdown.
  abbrev pub close_result : Option Error → Option Error → Result Error Reply
  close_result (some e) shut = err e
  close_result none (some e) = err e
  close_result none none = ok done

  abbrev pub flushed : List Frontend → List Frontend → Option Error → List Frontend
  flushed sent ms (some e) = sent
  flushed sent ms none = sent ++ ms

  abbrev pub plain : ℕ → Plain
  plain r = record { reply = r; error = none }

  abbrev pub extended_state : Option ℕ → ℕ → Extended
  extended_state expected r = record {
    reply = r;
    expected_columns = expected;
    rows = [];
    command_tag = none;
    error = none;
  }

  unfoldable pub start : Driver → Command → (flush shut : Option Error) → Driver
  start d (Command.simple_query sql r) flush shut =
      launch d r (query sql ∷ []) []
        (Pending.simple_query (record {
          reply = r;
          results = [];
          current_rows = [];
          current_fields = none;
          error = none;
        }))
        flush
  start d (Command.extended_query sql params param_formats result_formats expected r) flush shut =
      launch d r
        (parse [] sql []
          ∷ bind [] [] param_formats params result_formats
          ∷ describe_portal []
          ∷ execute [] (pos 0)
          ∷ [])
        (sync ∷ []) (Pending.extended (extended_state expected r)) flush
  start d (Command.copy_in sql chunks r) flush shut =
      launch d r (query sql ∷ []) []
        (Pending.copy_in (record { reply = r; payload = chunks; command_tag = none; error = none }))
        flush
  start d (Command.prepare name sql oids r) flush shut =
      launch d r (parse name sql oids ∷ describe_statement name ∷ []) (sync ∷ [])
        (Pending.prepare (record { reply = r; param_oids = none; row_fields = none; error = none }))
        flush
  start d (Command.execute_prepared name params param_formats result_formats expected r) flush
        shut =
      launch d r (bind [] name param_formats params result_formats ∷ execute [] (pos 0) ∷ [])
        (sync ∷ []) (Pending.execute_prepared (extended_state expected r)) flush
  start d (Command.bind_portal portal name params param_formats result_formats r) flush shut =
      launch d r (bind portal name param_formats params result_formats ∷ []) (sync ∷ [])
        (Pending.bind_portal (plain r)) flush
  start d (Command.execute_portal portal max_rows r) flush shut =
      launch d r (execute portal max_rows ∷ []) (sync ∷ [])
        (Pending.execute_portal (record { reply = r; rows = []; has_more = false; error = none }))
        flush
  start d (Command.close_portal name r) flush shut =
      launch d r (Frontend.close_portal name ∷ []) (sync ∷ []) (Pending.close_portal (plain r))
        flush
  start d (Command.close_statement name r) flush shut =
      launch d r (Frontend.close_statement name ∷ []) (sync ∷ [])
        (Pending.close_statement (plain r)) flush
  start d (Command.close r) flush shut =
      let told = answer d r (close_result flush shut) in
      fail_inbox
        (record told { sent = flushed d.sent (terminate ∷ []) flush; pending = some Pending.close })
        d.inbox

  -- The driver, and the error that ends its loop.
  abbrev pub write_copy_fail : Driver → String → Option Error → Driver × Option Error
  write_copy_fail d message flush = elim (reject (copy_fail (ascii message))) [
    | some e ↦ (d, some e)
    | none ↦ elim flush [
      | some e ↦ (d, some e)
      | none ↦ (record d { sent = d.sent ++ (copy_fail (ascii message) ∷ []) }, none)
    ]
  ]

  abbrev note_chunk : CopyIn → Error → Driver × Option Error → Driver × Option Error
  note_chunk p e (d, some x) = (d, some x)
  note_chunk p e (d, none) = (
    record d { pending = some (Pending.copy_in (record p { error = or_set p.error (some e) })) },
    none,
  )

  -- `write_copy_stream`, with what `on_message` does with its result. A chunk that cannot be encoded
  -- is noted if the failure message went out.
  unfoldable pub stream_copy : Driver → CopyIn → List Bytes → Option Error → Driver × Option Error
  stream_copy d p chunks flush = elim (first_rejected (map copy_data chunks)) [
    | some e ↦ note_chunk p e (write_copy_fail d "babar failed to encode COPY data" flush)
    | none ↦ elim flush [
      | some e ↦ (d, some e)
      | none ↦ (record d { sent = d.sent ++ (map copy_data chunks ++ (copy_done ∷ [])) }, none)
    ]
  ]

  unfoldable pub on_copy_in_response :
      Driver → CopyIn → ℕ → List ℤ → Option Error → Driver × Option Error
  on_copy_in_response d p overall columns flush =
      if overall == 1 && all is_binary columns
      then (let p' : CopyIn = record p { payload = [] } in
          stream_copy (record d { pending = some (Pending.copy_in p') }) p' p.payload flush)
      else write_copy_fail
          (record d {
            pending = some (
                Pending.copy_in (record p {
                  error = or_set p.error (some (protocol (copy_format overall columns)));
                }));
          })
          "babar only supports binary COPY FROM STDIN" flush

  unfoldable pub dispatch :
      Driver → Option Pending → BackendMessage → Option Error → Driver × Option Error
  dispatch d (some (Pending.copy_in p)) (copy_in_response overall columns) flush =
      on_copy_in_response d p overall columns flush
  dispatch d none m flush = (d, none)
  dispatch d (some p) m flush = (apply d (advance p m), none)

  unfoldable pub on_message : Driver → BackendMessage → Option Error → Driver × Option Error
  on_message d m flush = dispatch (set_transaction_status d m) d.pending m flush

  -- `Err` ends the loop, by way of `fail_pending`.
  abbrev pub after_message : Driver × Option Error → Driver
  after_message (d, none) = d
  after_message (d, some e) = fail_pending d e

  -- The inbox is polled only if no command is in flight.
  unfoldable pub poll_inbox :
      Driver → Option Pending → List Command → (flush shut : Option Error) → Driver
  poll_inbox d none (c ∷ cs) flush shut = start (record d { inbox = cs }) c flush shut
  poll_inbox d p cs flush shut = d

  -- `shutdown`, when the channel is empty and closed and no command is in flight.
  abbrev pub on_hang_up : Driver → Option Pending → List Command → Option Error → Driver
  on_hang_up d none [] flush = record d {
    sent = flushed d.sent (terminate ∷ []) flush;
    accepting = false;
    running = false;
  }
  on_hang_up d p cs flush = d

  -- One turn of the loop `run`, or one `send` of a caller. A closed inbox refuses a command, and so
  -- the caller keeps its channel.
  unfoldable pub step : Driver → Event → Driver
  step d (send c) = if d.accepting then record d { inbox = d.inbox ++ (c ∷ []) } else d
  step d (take_command flush shut) =
      if d.running then poll_inbox d d.pending d.inbox flush shut else d
  step d (hang_up flush) = if d.running then on_hang_up d d.pending d.inbox flush else d
  step d (received m flush) = if d.running then after_message (on_message d m flush) else d
  step d (broken e) = if d.running then fail_pending d e else d
  step d eof = if d.running then fail_pending d (closed no_context) else d

  unfoldable pub run : Driver → List Event → Driver
  run d [] = d
  run d (e ∷ es) = run (step d e) es

-- `Driver::new`.
abbrev pub new_driver : ℕ → Driver
new_driver status = record {
  pending = none;
  transaction_status = status;
  inbox = [];
  accepting = true;
  running = true;
  sent = [];
  replies = [];
}
