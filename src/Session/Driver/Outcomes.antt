-- ===== src/Session/Driver/Outcomes.antt =====
-- What a command in flight answers, from the messages that the server sends up to `ReadyForQuery`.
use babar.Prelude.{
  ◌⊎◌, inl, inr, ℕ, ◌≡◌, refl, List, [], ◌∷◌, ◌++◌, map, Option, none, some, true, length, ◌==◌,
  if◌then◌else◌, arith, append_assoc, append-nil, All, if_true, ◌∙◌, ap,
}
use babar.Error.{Error, column_alignment, no_context, from_server_fields, or_set}
use babar.Protocol.Backend.{
  Text, BackendMessage, ready_for_query, row_description, data_row, command_complete,
  error_response, no_data,
}
use babar.Protocol.Frontend.{Frontend}
use babar.Session.Driver.State.{RawRows, extended_outcome, Extended, Pending, Driver, answer}
use babar.Session.Driver.Advance.{waits, advance, advance_extended, outcome, note_columns}
use babar.Session.Driver.Run.{
  Event, received, dispatch, on_message, apply, set_transaction_status, after_message, step, run,
}

-- Nothing but `ReadyForQuery` ends a command.
abbrev pub IsBusy : BackendMessage → Type 0
IsBusy (ready_for_query status) = ⊥
IsBusy _ = Unit {0}

-- The rows among the messages, in order.
abbrev pub data_rows : List BackendMessage → RawRows
data_rows [] = []
data_rows (data_row columns ∷ ms) = columns ∷ data_rows ms
data_rows (_ ∷ ms) = data_rows ms

-- The tag of the last `CommandComplete`.
abbrev pub last_tag : Option Text → List BackendMessage → Option Text
last_tag tag [] = tag
last_tag tag (command_complete t ∷ ms) = last_tag (some t) ms
last_tag tag (_ ∷ ms) = last_tag tag ms

-- The error that one message means for a caller who wants so many columns.
abbrev pub wrong_columns : Option ℕ → ℕ → Option Error
wrong_columns none actual = none
wrong_columns (some expected) actual =
    if actual == expected then none else some (column_alignment expected actual no_context)

abbrev pub error_of : Option ℕ → BackendMessage → Option Error
error_of expected (row_description fields) = wrong_columns expected (length fields)
error_of expected no_data = wrong_columns expected 0
error_of expected (error_response fields) = some (from_server_fields fields)
error_of expected _ = none

-- The first error among the messages.
abbrev pub first_error : Option ℕ → List BackendMessage → Option Error
first_error expected [] = none
first_error expected (m ∷ ms) = or_set (error_of expected m) (first_error expected ms)

abbrev pub receive_all : List BackendMessage → List Event
receive_all = map λ m. received m none

-- One message that does not end the command, as an update of its state.
abbrev after : Extended → BackendMessage → Extended
after p m = record p {
  rows = p.rows ++ data_rows (m ∷ []);
  command_tag = last_tag p.command_tag (m ∷ []);
  error = or_set p.error (error_of p.expected_columns m);
}

or_set-none : (e : Option Error) → or_set e none ≡ e
or_set-none none = refl
or_set-none (some e) = refl

or_set_assoc : (a b c : Option Error) → or_set (or_set a b) c ≡ or_set a (or_set b c)
or_set_assoc none b c = refl
or_set_assoc (some a) b c = refl

note_columns_lem :
    (expected : Option ℕ) (actual : ℕ) (e : Option Error)
    → note_columns expected actual e ≡ or_set e (wrong_columns expected actual)
note_columns_lem none actual none = refl
note_columns_lem none actual (some e) = refl
note_columns_lem (some n) actual none = ground arith
note_columns_lem (some n) actual (some e) = ground arith

extended_after :
    (c : Extended → Pending) (p : Extended) (m : BackendMessage)
    → IsBusy m
    → advance_extended c p m ≡ waits (c (after p m))
extended_after c p (row_description fields) b =
    rw (note_columns_lem p.expected_columns (length fields) p.error, append-nil p.rows)
extended_after c p no_data b = rw (note_columns_lem p.expected_columns 0 p.error, append-nil p.rows)
extended_after c p (data_row columns) b = rw (or_set-none p.error)
extended_after c p (command_complete tag) b = rw (or_set-none p.error, append-nil p.rows)
extended_after c p (error_response fields) b = rw (append-nil p.rows)
extended_after c p (ready_for_query s) b = absurd b
extended_after c p _ b = rw (or_set-none p.error, append-nil p.rows)

data_rows-cons :
    (m : BackendMessage) (ms : List BackendMessage)
    → data_rows (m ∷ ms) ≡ data_rows (m ∷ []) ++ data_rows ms
data_rows-cons (data_row columns) ms = refl
data_rows-cons _ ms = refl

last_tag-cons :
    (tag : Option Text) (m : BackendMessage) (ms : List BackendMessage)
    → last_tag tag (m ∷ ms) ≡ last_tag (last_tag tag (m ∷ [])) ms
last_tag-cons tag (command_complete t) ms = refl
last_tag-cons tag _ ms = refl

IsBusy-status : (d : Driver) (m : BackendMessage) → IsBusy m → set_transaction_status d m ≡ d
IsBusy-status d (ready_for_query s) b = absurd b
IsBusy-status d _ b = refl

module _ (reject : Frontend → Option Error) where
  -- A command of the extended protocol is handled by `advance_extended`.
  abbrev IsExtended : (Extended → Pending) → Type 0
  IsExtended c =
      (d : Driver) (p : Extended) (m : BackendMessage)
      → dispatch reject d (some (c p)) m none ≡ (apply d (advance_extended c p m), none)

  busy_step :
      (c : Extended → Pending) (d : Driver) (p : Extended) (m : BackendMessage)
      → IsExtended c
      → IsBusy m
      → d.running ≡ true
      → d.pending ≡ some (c p)
      → step reject d (received m none) ≡ record d { pending = some (c (after p m)) }
  unfolding step on_message
  busy_step c d p m h b r q =
      if_true d.running _ d r
      ∙ ap (λ s. after_message reject (dispatch reject s d.pending m none)) (IsBusy-status d m b)
      ∙ ap (λ q'. after_message reject (dispatch reject d q' m none)) q
      ∙ ap (after_message reject) (h d p m)
      ∙ ap (apply d) (extended_after c p m b)

  ready_step :
      (c : Extended → Pending) (d : Driver) (p : Extended) (status : ℕ)
      → IsExtended c
      → d.running ≡ true
      → d.pending ≡ some (c p)
      → step reject d (received (ready_for_query status) none)
        ≡ answer
            (record d { pending = none; transaction_status = status })
            p.reply
            (outcome p.error (extended_outcome p.rows p.command_tag))
  unfolding step on_message
  ready_step c d p status h r q =
      let d' : Driver = record d { transaction_status = status } in
      if_true d.running _ d r
      ∙ ap (λ q'. after_message reject (dispatch reject d' q' (ready_for_query status) none)) q
      ∙ ap (after_message reject) (h d' p (ready_for_query status))

  extended_run :
      (c : Extended → Pending) (d : Driver) (p : Extended) (ms : List BackendMessage) (status : ℕ)
      → IsExtended c
      → All IsBusy ms
      → d.running ≡ true
      → d.pending ≡ some (c p)
      → run reject d (receive_all (ms ++ (ready_for_query status ∷ [])))
        ≡ answer
            (record d { pending = none; transaction_status = status })
            p.reply
            (outcome
              (or_set p.error (first_error p.expected_columns ms))
              (extended_outcome (p.rows ++ data_rows ms) (last_tag p.command_tag ms)))
  unfolding run
  extended_run c d p [] status h b r q =
      ready_step c d p status h r q ∙ rw (or_set-none p.error, append-nil p.rows)
  extended_run c d p (m ∷ ms) status h (b, bs) r q =
      ap (λ s. run reject s (receive_all (ms ++ (ready_for_query status ∷ []))))
        (busy_step c d p m h b r q)
      ∙ extended_run c (record d { pending = some (c (after p m)) }) (after p m) ms status h bs r
          refl
      ∙ rw (
        or_set_assoc p.error (error_of p.expected_columns m) (first_error p.expected_columns ms),
        append_assoc p.rows (data_rows (m ∷ [])) (data_rows ms),
        ← data_rows-cons m ms,
        ← last_tag-cons p.command_tag m ms,
      )

  extended-IsExtended : IsExtended Pending.extended
  unfolding dispatch advance
  extended-IsExtended d p (data_row columns) = refl
  extended-IsExtended d p _ = refl

  execute_prepared-IsExtended : IsExtended Pending.execute_prepared
  unfolding dispatch advance
  execute_prepared-IsExtended d p (data_row columns) = refl
  execute_prepared-IsExtended d p _ = refl

  -- From the flush of an extended query, or of a prepared statement's execution, to `ReadyForQuery`:
  -- the caller gets the rows in the order sent and the last command tag, or the first error among the
  -- messages, whether the server reported it or the number of columns was not the one expected. The
  -- driver is idle again, in the status that the server named, and nothing else has been answered.
  pub extended_run_lem :
      (d : Driver) (p : Extended) (ms : List BackendMessage) (status : ℕ)
      → All IsBusy ms
      → d.running ≡ true
      → (d.pending ≡ some (Pending.extended p)) ⊎ (d.pending ≡ some (Pending.execute_prepared p))
      → p.error ≡ none
      → p.rows ≡ []
      → p.command_tag ≡ none
      → run reject d (receive_all (ms ++ (ready_for_query status ∷ [])))
        ≡ answer
            (record d { pending = none; transaction_status = status })
            p.reply
            (outcome
              (first_error p.expected_columns ms)
              (extended_outcome (data_rows ms) (last_tag none ms)))
  extended_run_lem d p ms status b r (inl q) e rows tag =
      extended_run Pending.extended d p ms status extended-IsExtended b r q ∙ rw (e, rows, tag)
  extended_run_lem d p ms status b r (inr q) e rows tag =
      extended_run Pending.execute_prepared d p ms status execute_prepared-IsExtended b r q
      ∙ rw (e, rows, tag)
