-- ===== src/Session/Driver/Advance.antt =====
-- `on_message`: what a message of the server does to the command in flight.
use babar.Prelude.{
  ℕ, List, [], ◌∷◌, ◌++◌, Option, none, some, true, Result, ok, err, length, ◌==◌, if◌then◌else◌,
}
use babar.Error.{
  Error, protocol, copy_without_command_complete, column_alignment, no_context, from_server_fields,
  or_set,
}
use babar.Protocol.Backend.{
  Text, BackendMessage, ready_for_query, row_description, data_row, command_complete,
  empty_query_response, error_response, no_data, parameter_description, portal_suspended,
}
use babar.Session.Driver.State.{
  Reply, result_sets, extended_outcome, copy_in_outcome, prepare_outcome, portal_batch, done,
  SimpleQuery, Extended, CopyIn, Prepare, ExecutePortal, Plain, Pending,
}

-- The command stays in flight, or it is answered.
pub data Advance : Type 0 where
  waits : Pending → Advance
  answers : ℕ → Result Error Reply → Advance

-- `error.map_or(Ok(reply), Err)`.
abbrev pub outcome : Option Error → Reply → Result Error Reply
outcome none r = ok r
outcome (some e) r = err e

-- `error.take().or(Some(e))`: the first error stays.
abbrev pub note_columns : Option ℕ → ℕ → Option Error → Option Error
note_columns none actual e = e
note_columns (some expected) actual e =
    if actual == expected then e else or_set e (some (column_alignment expected actual no_context))

abbrev pub unwrap_or_default {ℓ} : {A : Type ℓ} → Option (List A) → List A
unwrap_or_default none = []
unwrap_or_default (some xs) = xs

abbrev pub advance_simple_query : SimpleQuery → BackendMessage → Advance
advance_simple_query p (row_description fields) =
    waits (Pending.simple_query (record p { current_fields = some fields }))
advance_simple_query p (data_row columns) =
    waits (Pending.simple_query (record p { current_rows = p.current_rows ++ (columns ∷ []) }))
advance_simple_query p (command_complete tag) = waits (
    Pending.simple_query (record p {
      results = p.results ++ (p.current_rows ∷ []);
      current_rows = [];
      current_fields = none;
    }))
advance_simple_query p empty_query_response =
    waits (Pending.simple_query (record p { results = p.results ++ ([] ∷ []) }))
advance_simple_query p (error_response fields) =
    waits (Pending.simple_query (record p { error = some (from_server_fields fields) }))
advance_simple_query p (ready_for_query status) =
    answers p.reply (outcome p.error (result_sets p.results))
advance_simple_query p _ = waits (Pending.simple_query p)

-- `Extended` and `ExecutePrepared` have the same arms, but for the constructor and for `ParseComplete`,
-- which changes nothing in either.
abbrev pub advance_extended : (Extended → Pending) → Extended → BackendMessage → Advance
advance_extended c p (row_description fields) =
    waits (c (record p { error = note_columns p.expected_columns (length fields) p.error }))
advance_extended c p no_data =
    waits (c (record p { error = note_columns p.expected_columns 0 p.error }))
advance_extended c p (data_row columns) = waits (c (record p { rows = p.rows ++ (columns ∷ []) }))
advance_extended c p (command_complete tag) = waits (c (record p { command_tag = some tag }))
advance_extended c p (error_response fields) =
    waits (c (record p { error = or_set p.error (some (from_server_fields fields)) }))
advance_extended c p (ready_for_query status) =
    answers p.reply (outcome p.error (extended_outcome p.rows p.command_tag))
advance_extended c p _ = waits (c p)

abbrev pub copy_outcome : Option Error → Option Text → Result Error Reply
copy_outcome (some e) tag = err e
copy_outcome none (some tag) = ok (copy_in_outcome tag)
copy_outcome none none = err (protocol copy_without_command_complete)

abbrev pub advance_copy_in : CopyIn → BackendMessage → Advance
advance_copy_in p (command_complete tag) =
    waits (Pending.copy_in (record p { command_tag = some tag }))
advance_copy_in p (error_response fields) =
    waits (Pending.copy_in (record p { error = or_set p.error (some (from_server_fields fields)) }))
advance_copy_in p (ready_for_query status) = answers p.reply (copy_outcome p.error p.command_tag)
advance_copy_in p _ = waits (Pending.copy_in p)

abbrev pub advance_prepare : Prepare → BackendMessage → Advance
advance_prepare p (parameter_description oids) =
    waits (Pending.prepare (record p { param_oids = some oids }))
advance_prepare p (row_description fields) =
    waits (Pending.prepare (record p { row_fields = some fields }))
advance_prepare p no_data = waits (Pending.prepare (record p { row_fields = some [] }))
advance_prepare p (error_response fields) =
    waits (Pending.prepare (record p { error = or_set p.error (some (from_server_fields fields)) }))
advance_prepare p (ready_for_query status) = answers p.reply (
    outcome p.error
      (prepare_outcome (unwrap_or_default p.param_oids) (unwrap_or_default p.row_fields)))
advance_prepare p _ = waits (Pending.prepare p)

abbrev pub advance_execute_portal : ExecutePortal → BackendMessage → Advance
advance_execute_portal p (data_row columns) =
    waits (Pending.execute_portal (record p { rows = p.rows ++ (columns ∷ []) }))
advance_execute_portal p portal_suspended =
    waits (Pending.execute_portal (record p { has_more = true }))
advance_execute_portal p (error_response fields) = waits (
    Pending.execute_portal (record p { error = or_set p.error (some (from_server_fields fields)) }))
advance_execute_portal p (ready_for_query status) =
    answers p.reply (outcome p.error (portal_batch p.rows p.has_more))
advance_execute_portal p _ = waits (Pending.execute_portal p)

abbrev pub advance_plain : (Plain → Pending) → Plain → BackendMessage → Advance
advance_plain c p (error_response fields) =
    waits (c (record p { error = or_set p.error (some (from_server_fields fields)) }))
advance_plain c p (ready_for_query status) = answers p.reply (outcome p.error done)
advance_plain c p _ = waits (c p)

-- The match of `on_message`. A message that no arm names is logged and changes nothing.
unfoldable pub advance : Pending → BackendMessage → Advance
advance (Pending.simple_query p) m = advance_simple_query p m
advance (Pending.extended p) m = advance_extended Pending.extended p m
advance (Pending.execute_prepared p) m = advance_extended Pending.execute_prepared p m
advance (Pending.copy_in p) m = advance_copy_in p m
advance (Pending.prepare p) m = advance_prepare p m
advance (Pending.execute_portal p) m = advance_execute_portal p m
advance (Pending.bind_portal p) m = advance_plain Pending.bind_portal p m
advance (Pending.close_portal p) m = advance_plain Pending.close_portal p m
advance (Pending.close_statement p) m = advance_plain Pending.close_statement p m
advance Pending.close m = waits Pending.close
