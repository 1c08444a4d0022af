-- ===== src/Session/Driver/Tests.antt =====
-- Runs of the driver, and the theorems at a concrete query.
use babar.Prelude.{◌≡◌, refl, List, [], ◌∷◌, ◌++◌, Option, none, some, inl, ok, err}
use babar.Rust.{ascii, pos}
use babar.Error.{Error, closed, no_context}
use babar.Protocol.Backend.{
  BackendMessage, ready_for_query, data_row, command_complete, parse_complete, bind_complete,
  row_description, RowField,
}
use babar.Protocol.Frontend.{Frontend}
use babar.Session.Driver.State.{Reply, extended_outcome, Command, Extended, Pending, Driver, answer}
use babar.Session.Driver.Run.{
  Event, send, take_command, eof, new_driver, run, step, start, launch, first_rejected, poll_inbox,
  on_message, dispatch, fail_pending, fail_inbox,
}
use babar.Session.Driver.Advance.{advance}
use babar.Session.Driver.Tally.{tally}
use babar.Session.Driver.Replies.{step-tally}
use babar.Session.Driver.Settled.{all_accepted, run_owes}
use babar.Session.Driver.Outcomes.{receive_all, extended_run_lem}

-- An encoder that takes every message.
abbrev encodes : Frontend → Option Error
encodes m = none

abbrev select_one : Command
select_one = Command.extended_query (ascii "SELECT 1") [] [] (pos 1 ∷ []) (some 1) 5

abbrev column : RowField
column = record {
  name = ascii "n";
  table_oid = 0;
  column_id = pos 0;
  type_oid = 23;
  type_size = pos 4;
  type_modifier = pos 0;
  format = pos 1;
}

abbrev answers_of_server : List BackendMessage
answers_of_server =
    parse_complete
    ∷ bind_complete
    ∷ row_description (column ∷ [])
    ∷ data_row (some (1 ∷ []) ∷ [])
    ∷ command_complete (ascii "SELECT 1")
    ∷ []

abbrev one_row : Reply
one_row = extended_outcome ((some (1 ∷ []) ∷ []) ∷ []) (some (ascii "SELECT 1"))

abbrev in_flight_query : Extended
in_flight_query = record {
  reply = 5;
  expected_columns = some 1;
  rows = [];
  command_tag = none;
  error = none;
}

abbrev busy : Driver
busy = record (new_driver b'I') { pending = some (Pending.extended in_flight_query) }

-- A session that sends a query, takes its answer, and loses the connection.
abbrev session : List Event
session =
    send select_one
    ∷ take_command none none
    ∷ (receive_all (answers_of_server ++ (ready_for_query b'I' ∷ [])) ++ (eof ∷ []))

session_answers : (run encodes (new_driver b'I') session).replies ≡ (5, ok one_row) ∷ []
unfolding run step poll_inbox start launch first_rejected on_message dispatch advance fail_pending
    fail_inbox
session_answers = refl

-- A command that waits while the connection goes down is told that it is closed.
waiting_fails :
    (run encodes (new_driver b'I') (send select_one ∷ eof ∷ [])).replies
    ≡ (5, err (closed no_context)) ∷ []
unfolding run step fail_pending fail_inbox
waiting_fails = refl

step-tally_example : tally 5 (step encodes busy eof) ≡ 1
step-tally_example = step-tally encodes 5 busy eof

run_owes_example :
    tally 5 (run encodes (new_driver b'I') session)
    ≡ all_accepted encodes 5 (new_driver b'I') session
run_owes_example = run_owes encodes 5 b'I' session

extended_run_example :
    run encodes busy (receive_all (answers_of_server ++ (ready_for_query b'T' ∷ [])))
    ≡ answer (record busy { pending = none; transaction_status = b'T' }) 5 (ok one_row)
extended_run_example =
    extended_run_lem encodes busy in_flight_query answers_of_server b'T'
      (tt, (tt, (tt, (tt, (tt, tt))))) refl (inl refl) refl refl refl
