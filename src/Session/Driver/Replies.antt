-- ===== src/Session/Driver/Replies.antt =====
-- Every turn of the driver's loop keeps the tally of each reply channel.
use babar.Prelude.{
  ℕ, ◌+◌, ◌≡◌, refl, List, [], ◌∷◌, ◌++◌, Option, none, some, ◌&&◌, all, err, ◌==◌, if◌then◌else◌,
  arith, Bool-cases, inl, inr, Option-cases, ◌∙◌, String,
}
use babar.Rust.{ℤ}
use babar.Error.{Error, closed, no_context, clone_for_caller, or_set, protocol, copy_format}
use babar.Protocol.Backend.{Bytes, BackendMessage, ready_for_query, copy_in_response}
use babar.Protocol.Frontend.{Frontend, terminate}
use babar.Session.Driver.State.{Command, reply_of, CopyIn, Pending, Driver, answer}
use babar.Session.Driver.Advance.{advance}
use babar.Session.Driver.Run.{
  Event, send, take_command, hang_up, received, broken, eof, pending_reply, launch, start,
  stream_copy, on_copy_in_response, dispatch, on_message, poll_inbox, step, after_message,
  write_copy_fail, first_rejected, close_result, flushed, is_binary, on_hang_up,
}
use babar.Session.Driver.Tally.{
  is, tally, count_replies-append, count_commands-append, fail_inbox-tally, fail_pending-tally,
  advance-KeepsReply, apply-tally, answer-tally, put_in_flight-tally, if-tally,
}

module _ (reject : Frontend → Option Error) where
  launch-tally :
      (n : ℕ) (d : Driver) (id : ℕ) (batch tail : List Frontend) (p : Pending)
      (flush : Option Error)
      → d.pending ≡ none
      → pending_reply p ≡ some id
      → tally n (launch reject d id batch tail p flush) ≡ tally n d + is n id
  unfolding launch
  launch-tally n d id batch tail p none h k = elim (Option-cases (first_rejected reject batch)) [
    | inl q ↦ rw (q, launch) (put_in_flight-tally n id d p (d.sent ++ (batch ++ tail)) h k)
    | inr (e, q) ↦ rw (q, launch) (answer-tally n d id (err e))
  ]
  launch-tally n d id batch tail p (some x) h k =
      elim (Option-cases (first_rejected reject batch)) [
        | inl q ↦ rw (q, launch) (answer-tally n d id (err (clone_for_caller x)))
        | inr (e, q) ↦ rw (q, launch) (answer-tally n d id (err e))
      ]

  start-tally :
      (n : ℕ) (d : Driver) (c : Command) (flush shut : Option Error)
      → d.pending ≡ none
      → tally n (start reject d c flush shut) ≡ tally n d + is n (reply_of c)
  unfolding start
  start-tally n d (Command.close r) flush shut h =
      let told : Driver = record (answer d r (close_result reject flush shut)) {
        sent = flushed reject d.sent (terminate ∷ []) flush;
        pending = some Pending.close;
      } in
      let (a, b, i, _, _) = fail_inbox-tally n told d.inbox in
      rw (b, i)
        (rw h
          (omega (arith, a, count_replies-append n d.replies r (close_result reject flush shut))))
  start-tally n d _ flush shut h = launch-tally n d _ _ _ _ flush h refl

  -- What the inbox accepts for the channel `n`.
  abbrev pub accepted : ℕ → Driver → Event → ℕ
  accepted n d (send c) = if d.accepting then is n (reply_of c) else 0
  accepted n d _ = 0

  write_copy_fail-tally :
      (n : ℕ) (d : Driver) (message : String) (flush : Option Error)
      → tally n (write_copy_fail reject d message flush).0 ≡ tally n d
  write_copy_fail-tally n d message flush = ground arith

  stream_copy-tally :
      (n : ℕ) (d : Driver) (p : CopyIn) (chunks : List Bytes) (flush : Option Error)
      → d.pending ≡ some (Pending.copy_in p)
      → tally n (stream_copy reject d p chunks flush).0 ≡ tally n d
  unfolding stream_copy
  stream_copy-tally n d p chunks flush h = ground arith

  on_copy_in_response-tally :
      (n : ℕ) (d : Driver) (p : CopyIn) (overall : ℕ) (columns : List ℤ) (flush : Option Error)
      → d.pending ≡ some (Pending.copy_in p)
      → tally n (on_copy_in_response reject d p overall columns flush).0 ≡ tally n d
  unfolding on_copy_in_response
  on_copy_in_response-tally n d p overall columns flush h =
      let taken : CopyIn = record p { payload = [] } in
      let refused : CopyIn = record p {
        error = or_set p.error (some (protocol (copy_format overall columns)));
      } in
      let begun : Driver = record d { pending = some (Pending.copy_in taken) } in
      let stopped : Driver = record d { pending = some (Pending.copy_in refused) } in
      elim (Bool-cases (overall == 1 && all is_binary columns)) [
        | inl t ↦ rw t (stream_copy-tally n begun taken p.payload flush refl ∙ rw h)
        | inr f ↦ rw f (
            write_copy_fail-tally n stopped "babar only supports binary COPY FROM STDIN" flush
            ∙ rw h)
      ]

  dispatch-tally :
      (n : ℕ) (d : Driver) (q : Option Pending) (m : BackendMessage) (flush : Option Error)
      → d.pending ≡ q
      → tally n (dispatch reject d q m flush).0 ≡ tally n d
  unfolding dispatch
  dispatch-tally n d (some (Pending.copy_in p)) (copy_in_response overall columns) flush h =
      on_copy_in_response-tally n d p overall columns flush h
  dispatch-tally n d none m flush h = refl
  dispatch-tally n d (some p) m flush h = apply-tally n d p (advance p m) h (advance-KeepsReply p m)

  on_message-tally :
      (n : ℕ) (d : Driver) (m : BackendMessage) (flush : Option Error)
      → tally n (on_message reject d m flush).0 ≡ tally n d
  unfolding on_message
  on_message-tally n d (ready_for_query s) flush =
      dispatch-tally n (record d { transaction_status = s }) d.pending (ready_for_query s) flush
        refl
  on_message-tally n d m flush = dispatch-tally n d d.pending m flush refl

  after_message-tally :
      (n : ℕ) (r : Driver × Option Error) → tally n (after_message reject r) ≡ tally n r.0
  after_message-tally n (d, none) = refl
  after_message-tally n (d, some e) =
      let (a, b, i, _, _) = fail_pending-tally n d e in rw (b, i) (omega arith)

  poll_inbox-tally :
      (n : ℕ) (d : Driver) (q : Option Pending) (cs : List Command) (flush shut : Option Error)
      → d.pending ≡ q
      → d.inbox ≡ cs
      → tally n (poll_inbox reject d q cs flush shut) ≡ tally n d
  unfolding poll_inbox
  poll_inbox-tally n d none (c ∷ cs) flush shut h k =
      start-tally n (record d { inbox = cs }) c flush shut h ∙ rw k (omega arith)
  poll_inbox-tally n d _ _ flush shut h k = refl

  on_hang_up-tally :
      (n : ℕ) (d : Driver) (q : Option Pending) (cs : List Command) (flush : Option Error)
      → tally n (on_hang_up reject d q cs flush) ≡ tally n d
  on_hang_up-tally n d none [] flush = refl
  on_hang_up-tally n d _ _ flush = refl

  -- One turn of the loop loses no channel and makes none up: only an accepted command adds its own.
  pub step-tally :
      (n : ℕ) (d : Driver) (e : Event) → tally n (step reject d e) ≡ tally n d + accepted n d e
  unfolding step
  step-tally n d (send c) = elim (Bool-cases d.accepting) [
    | inl a ↦ rw a (omega (arith, count_commands-append n d.inbox c))
    | inr a ↦ rw a (omega arith)
  ]
  step-tally n d (take_command flush shut) =
      if-tally n d.running d _ (poll_inbox-tally n d d.pending d.inbox flush shut refl refl)
  step-tally n d (hang_up flush) =
      if-tally n d.running d _ (on_hang_up-tally n d d.pending d.inbox flush)
  step-tally n d (received m flush) =
      if-tally n d.running d _
        (after_message-tally n (on_message reject d m flush) ∙ on_message-tally n d m flush)
  step-tally n d (broken e) = if-tally n d.running d _ (after_message-tally n (d, some e))
  step-tally n d eof =
      if-tally n d.running d _ (after_message-tally n (d, some (closed no_context)))
