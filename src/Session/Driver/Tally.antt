-- ===== src/Session/Driver/Tally.antt =====
-- Every command that the inbox accepts is answered, and once. `tally n d` counts the channel `n` among
-- the answers sent, the command in flight and the commands that wait.
use babar.Prelude.{
  ℕ, ◌+◌, ◌≡◌, refl, List, [], ◌∷◌, ◌++◌, Option, none, some, Bool, true, false, Result, err, ◌==◌,
  if◌then◌else◌, arith, inl, inr, Option-cases, ◌∙◌, sym,
}
use babar.Error.{Error, closed, no_context}
use babar.Protocol.Backend.{BackendMessage, data_row, ready_for_query, error_response}
use babar.Protocol.Frontend.{Frontend}
use babar.Session.Driver.State.{
  Reply, Command, reply_of, SimpleQuery, Extended, CopyIn, Prepare, ExecutePortal, Plain, Pending,
  Driver, answer,
}
use babar.Session.Driver.Advance.{
  Advance, waits, answers, advance, advance_simple_query, advance_extended, advance_copy_in,
  advance_prepare, advance_execute_portal, advance_plain,
}
use babar.Session.Driver.Run.{pending_reply, fail_inbox, fail_in_flight, fail_pending, apply}

abbrev pub is : ℕ → ℕ → ℕ
is n id = if id == n then 1 else 0

abbrev pub in_flight : ℕ → Option ℕ → ℕ
in_flight n none = 0
in_flight n (some id) = is n id

abbrev pub pending_id : Option Pending → Option ℕ
pending_id none = none
pending_id (some p) = pending_reply p

abbrev pub count_replies : ℕ → List (ℕ × Result Error Reply) → ℕ
count_replies n [] = 0
count_replies n ((id, r) ∷ rs) = is n id + count_replies n rs

abbrev pub count_commands : ℕ → List Command → ℕ
count_commands n [] = 0
count_commands n (c ∷ cs) = is n (reply_of c) + count_commands n cs

abbrev pub tally : ℕ → Driver → ℕ
tally n d =
    count_replies n d.replies + in_flight n (pending_id d.pending) + count_commands n d.inbox

pub count_replies-append :
    (n : ℕ) (rs : List (ℕ × Result Error Reply)) (id : ℕ) (r : Result Error Reply)
    → count_replies n (rs ++ ((id, r) ∷ [])) ≡ count_replies n rs + is n id
count_replies-append n [] id r = omega arith
count_replies-append n ((i, x) ∷ rs) id r = omega (arith, count_replies-append n rs id r)

pub count_commands-append :
    (n : ℕ) (cs : List Command) (c : Command)
    → count_commands n (cs ++ (c ∷ [])) ≡ count_commands n cs + is n (reply_of c)
count_commands-append n [] c = omega arith
count_commands-append n (x ∷ cs) c = omega (arith, count_commands-append n cs c)

-- Failing the inbox answers all its commands.
pub fail_inbox-tally :
    (n : ℕ) (d : Driver) (cs : List Command)
    → let f = fail_inbox d cs in
      (count_replies n f.replies ≡ count_replies n d.replies + count_commands n cs)
      × (f.pending ≡ d.pending)
      × (f.inbox ≡ [])
      × (f.running ≡ d.running)
      × (f.accepting ≡ false)
unfolding fail_inbox
fail_inbox-tally n d [] = (omega arith, refl, refl, refl, refl)
fail_inbox-tally n d (c ∷ cs) =
    let e = err (closed no_context) in
    let (a, b, i, r, o) = fail_inbox-tally n (answer d (reply_of c) e) cs in
    (omega (arith, count_replies-append n d.replies (reply_of c) e), b, i, r, o)

pub fail_in_flight-tally :
    (n : ℕ) (d : Driver) (q : Option Pending) (e : Error)
    → d.pending ≡ q
    → let f = fail_in_flight d q e in
      (count_replies n f.replies ≡ count_replies n d.replies + in_flight n (pending_id q))
      × (f.pending ≡ none)
fail_in_flight-tally n d none e h = (omega arith, h)
fail_in_flight-tally n d (some p) e h = elim (Option-cases (pending_reply p)) [
  | inl k ↦ (ground arith, ground arith)
  | inr (id, k) ↦ (ground (arith, count_replies-append n d.replies id (err e)), ground arith)
]

-- Failing what is pending answers all that is owed.
pub fail_pending-tally :
    (n : ℕ) (d : Driver) (e : Error)
    → let f = fail_pending d e in
      (count_replies n f.replies ≡ tally n d)
      × (f.pending ≡ none)
      × (f.inbox ≡ [])
      × (f.running ≡ false)
      × (f.accepting ≡ false)
unfolding fail_pending
fail_pending-tally n d e =
    let (c, o) = fail_in_flight-tally n d d.pending e refl in
    let stopped : Driver = record (fail_in_flight d d.pending e) { running = false } in
    let (a, b, i, r, k) = fail_inbox-tally n stopped d.inbox in (omega arith, b ∙ o, i, r, k)

-- A message keeps the channel of the command in flight, or answers on it.
abbrev pub KeepsReply : Pending → Advance → Type 0
KeepsReply p (waits q) = pending_reply q ≡ pending_reply p
KeepsReply p (answers id r) = pending_reply p ≡ some id

simple_query-KeepsReply :
    (p : SimpleQuery) (m : BackendMessage)
    → KeepsReply (Pending.simple_query p) (advance_simple_query p m)
simple_query-KeepsReply p (data_row columns) = refl
simple_query-KeepsReply p _ = refl

extended-KeepsReply :
    (p : Extended) (m : BackendMessage)
    → KeepsReply (Pending.extended p) (advance_extended Pending.extended p m)
extended-KeepsReply p (data_row columns) = refl
extended-KeepsReply p _ = refl

execute_prepared-KeepsReply :
    (p : Extended) (m : BackendMessage)
    → KeepsReply (Pending.execute_prepared p) (advance_extended Pending.execute_prepared p m)
execute_prepared-KeepsReply p (data_row columns) = refl
execute_prepared-KeepsReply p _ = refl

copy_in-KeepsReply :
    (p : CopyIn) (m : BackendMessage) → KeepsReply (Pending.copy_in p) (advance_copy_in p m)
copy_in-KeepsReply p (data_row columns) = refl
copy_in-KeepsReply p _ = refl

prepare-KeepsReply :
    (p : Prepare) (m : BackendMessage) → KeepsReply (Pending.prepare p) (advance_prepare p m)
prepare-KeepsReply p (data_row columns) = refl
prepare-KeepsReply p _ = refl

execute_portal-KeepsReply :
    (p : ExecutePortal) (m : BackendMessage)
    → KeepsReply (Pending.execute_portal p) (advance_execute_portal p m)
execute_portal-KeepsReply p (data_row columns) = refl
execute_portal-KeepsReply p _ = refl

plain-KeepsReply :
    (c : Plain → Pending) (p : Plain) (m : BackendMessage)
    → ((q : Plain) → pending_reply (c q) ≡ some q.reply)
    → KeepsReply (c p) (advance_plain c p m)
plain-KeepsReply c p (data_row columns) h = refl
plain-KeepsReply c p (ready_for_query s) h = h p
plain-KeepsReply c p (error_response fields) h = h _ ∙ sym (h p)
plain-KeepsReply c p _ h = refl

pub advance-KeepsReply : (p : Pending) (m : BackendMessage) → KeepsReply p (advance p m)
unfolding advance
advance-KeepsReply (Pending.simple_query p) m = simple_query-KeepsReply p m
advance-KeepsReply (Pending.extended p) m = extended-KeepsReply p m
advance-KeepsReply (Pending.execute_prepared p) m = execute_prepared-KeepsReply p m
advance-KeepsReply (Pending.copy_in p) m = copy_in-KeepsReply p m
advance-KeepsReply (Pending.prepare p) m = prepare-KeepsReply p m
advance-KeepsReply (Pending.execute_portal p) m = execute_portal-KeepsReply p m
advance-KeepsReply (Pending.bind_portal p) m = plain-KeepsReply Pending.bind_portal p m (λ q. refl)
advance-KeepsReply (Pending.close_portal p) m =
    plain-KeepsReply Pending.close_portal p m (λ q. refl)
advance-KeepsReply (Pending.close_statement p) m =
    plain-KeepsReply Pending.close_statement p m (λ q. refl)
advance-KeepsReply Pending.close m = refl

pub apply-tally :
    (n : ℕ) (d : Driver) (p : Pending) (a : Advance)
    → d.pending ≡ some p
    → KeepsReply p a
    → tally n (apply d a) ≡ tally n d
apply-tally n d p (waits q) h k = rw (h, k)
apply-tally n d p (answers id r) h k =
    rw (h, k) (omega (arith, count_replies-append n d.replies id r))

pub answer-tally :
    (n : ℕ) (d : Driver) (id : ℕ) (r : Result Error Reply)
    → tally n (answer d id r) ≡ tally n d + is n id
answer-tally n d id r = omega (arith, count_replies-append n d.replies id r)

pub put_in_flight-tally :
    (n id : ℕ) (d : Driver) (p : Pending) (ms : List Frontend)
    → d.pending ≡ none
    → pending_reply p ≡ some id
    → tally n (record d { sent = ms; pending = some p }) ≡ tally n d + is n id
put_in_flight-tally n id d p ms h k = rw (h, k) (omega arith)

pub if-tally :
    (n : ℕ) (b : Bool) (d d' : Driver)
    → tally n d' ≡ tally n d
    → tally n (if b then d' else d) ≡ tally n d + 0
if-tally n true d d' h = omega (arith, h)
if-tally n false d d' h = omega arith
