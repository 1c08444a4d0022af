-- ===== src/Pool/Tasks.antt =====
-- crates/core/src/pool.rs: the state behind the lock, and the tasks that work on it. A task is what is
-- left to do of one call of `acquire`, `recycle`, `ensure_min_idle`, `maintenance_tick` or `close`, cut at
-- the places where another task can come between: where it awaits, and where it takes the lock.
use babar.Prelude.{
  ℕ, ◌+◌, ◌-◌, List, [], ◌∷◌, ◌++◌, Bool, true, false, not, ◌&&◌, ◌||◌, length, min, leb, ◌==◌,
  if◌then◌else◌,
}
use babar.Error.{Error}
use babar.Pool.Config.{PoolConfig, HealthCheck, no_check, IdleSession, is_expired, record_error}

pub data PoolError : Type 0 where
  timeout pool_closed : PoolError
  acquire_failed : Error → PoolError

-- `PoolState` and the flag `closed`. `opened` counts the sessions that were ever opened.
pub record PoolState : Type 0 where
  pub total : ℕ
  pub idle : List IdleSession
  pub closed : Bool
  pub opened : ℕ

pub data Task : Type 0 where
  -- `acquire` until its deadline: at the top of the loop; about to take an idle session, to look at
  -- its age, waiting for its health check, or about to discard it, after an error of the health check or not; about to reserve a slot; opening a session;
  -- giving the slot back after a failure; waiting to be notified.
  acquiring taking reserving connecting waiting : (deadline : ℕ) → Task
  checking pinging dropping_expired : (deadline : ℕ) → IdleSession → Task
  dropping_unhealthy : (deadline : ℕ) → IdleSession → Error → Task
  giving_up : Error → Task
  -- A connection in the hands of the caller, and the end of an `acquire` without one.
  connection : (session created_at : ℕ) → (broken : Bool) → Task
  refused : PoolError → Task
  -- `recycle`; `return_idle` at its discard and at its lock. `fills` says whether `ensure_min_idle` goes on.
  recycling : (session created_at : ℕ) → (broken : Bool) → Task
  discarding : (session : ℕ) → (fills : Bool) → Task
  storing : IdleSession → (fills : Bool) → Task
  -- `ensure_min_idle`, at the top of its loop, opening a session, and giving the slot back.
  filling opening closing_slot : Task
  -- `maintenance_tick`, then `ensure_min_idle`; `close`, before and after it has set the flag.
  ticking closing draining : Task
  finished : Task

-- What a task learns when it goes on.
pub data Input : Type 0 where
  -- Nothing: it takes the lock, reads the flag or goes on.
  go : Input
  -- The result of a statement on the session, or of opening a session.
  succeeded : Input
  failed : Error → Input
  -- The result of `timeout(remaining, notified())`.
  notified timed_out : Input
  -- A call on the connection fails; the caller drops it, within a runtime or outside of one.
  call_fails : Error → Input
  drops drops_outside : Input
  -- The session's transaction status on return.
  returns_in : (transaction_status : ℕ) → (rolled_back : Bool) → Input
  -- The future is dropped where it awaits.
  cancels : Input

-- The state and the task after a section, and the slots that nobody owns any more.
pub record Outcome : Type 0 where
  pub state : PoolState
  pub task : Task
  pub lost : ℕ

abbrev becomes : PoolState → Task → Outcome
becomes s t = record { state = s; task = t; lost = 0 }

abbrev loses : PoolState → Task → Outcome
loses s t = record { state = s; task = t; lost = 1 }

-- `total.saturating_sub(1)`.
abbrev release_slot : PoolState → PoolState
release_slot s = record s { total = s.total - 1 }

abbrev take_idle : PoolState → (deadline : ℕ) → List IdleSession → Outcome
take_idle s d [] = becomes s (reserving d)
take_idle s d (i ∷ rest) = becomes (record s { idle = rest }) (checking d i)

abbrev opened_session : PoolState → PoolState
opened_session s = record s { opened = s.opened + 1 }

abbrev after_discard : Bool → Task
after_discard fills = if fills then filling else finished

-- `return_idle`.
abbrev return_idle :
    PoolConfig → (now session created_at : ℕ) → (should_discard fills : Bool) → Task
return_idle c now session created_at should_discard fills =
    let idle : IdleSession = record {
      session = session;
      created_at = created_at;
      idle_since = now;
    } in
    if should_discard || is_expired c now idle then discarding session fills else storing idle fills

-- The idle sessions that have not expired, in order.
abbrev pub unexpired : PoolConfig → (now : ℕ) → List IdleSession → List IdleSession
unexpired c now [] = []
unexpired c now (i ∷ rest) =
    let keep = unexpired c now rest in if is_expired c now i then keep else i ∷ keep

-- Each expired session takes one off `total`.
unfoldable pub expire : PoolConfig → (now : ℕ) → PoolState → PoolState
expire c now s =
    let keep = unexpired c now s.idle in
    record s { total = s.total - (length s.idle - length keep); idle = keep }

-- `Drop for PoolConnection`, within a runtime or outside of one.
abbrev drop_connection : PoolState → (session created_at : ℕ) → (broken in_runtime : Bool) → Outcome
drop_connection s session created_at broken in_runtime =
    if in_runtime then becomes s (recycling session created_at broken) else loses s finished

-- Whether an idle session needs no statement to be found healthy.
abbrev is_unchecked : HealthCheck → Bool
is_unchecked no_check = true
is_unchecked h = false

module _ (c : PoolConfig) (now : ℕ) where
  -- The age is looked at once, before the health check.
  abbrev check_idle : PoolState → (deadline : ℕ) → IdleSession → Outcome
  check_idle s d i =
      if is_expired c now i
      then becomes s (dropping_expired d i)
      else if is_unchecked c.health_check
      then becomes s (connection i.session i.created_at false)
      else becomes s (pinging d i)

  -- One section of a task. An input that the task does not await changes nothing.
  unfoldable pub advance_task : PoolState → Task → Input → Outcome
  advance_task s (acquiring d) go =
      if s.closed then becomes s (refused pool_closed) else becomes s (taking d)
  advance_task s (taking d) go = take_idle s d s.idle
  advance_task s (checking d i) go = check_idle s d i
  advance_task s (pinging d i) succeeded = becomes s (connection i.session i.created_at false)
  advance_task s (pinging d i) (failed e) = becomes s (dropping_unhealthy d i e)
  advance_task s (pinging d i) cancels = loses s finished
  advance_task s (dropping_expired d i) go = becomes (release_slot s) (acquiring d)
  advance_task s (dropping_expired d i) cancels = loses s finished
  advance_task s (dropping_unhealthy d i e) go =
      becomes (release_slot s) (if leb d now then refused (acquire_failed e) else acquiring d)
  advance_task s (dropping_unhealthy d i e) cancels = loses s finished
  advance_task s (reserving d) go =
      if leb c.max_size s.total
      then becomes s (waiting d)
      else becomes (record s { total = s.total + 1 }) (connecting d)
  advance_task s (connecting d) succeeded =
      becomes (opened_session s) (connection s.opened now false)
  advance_task s (connecting d) (failed e) = becomes s (giving_up e)
  advance_task s (connecting d) cancels = loses s finished
  advance_task s (giving_up e) go = becomes (release_slot s) (refused (acquire_failed e))
  advance_task s (giving_up e) cancels = loses s finished
  advance_task s (waiting d) go =
      if leb d now then becomes s (refused timeout) else becomes s (waiting d)
  advance_task s (waiting d) notified =
      if leb d now then becomes s (refused timeout) else becomes s (acquiring d)
  advance_task s (waiting d) timed_out = becomes s (refused timeout)
  advance_task s (acquiring d) cancels = becomes s finished
  advance_task s (taking d) cancels = becomes s finished
  advance_task s (reserving d) cancels = becomes s finished
  advance_task s (waiting d) cancels = becomes s finished
  advance_task s (connection n t broken) (call_fails e) =
      becomes s (connection n t (record_error broken e))
  advance_task s (connection n t broken) drops = drop_connection s n t broken true
  advance_task s (connection n t broken) drops_outside = drop_connection s n t broken false
  advance_task s (recycling n t broken) (returns_in status rolled_back) =
      let discard = broken || s.closed || (not (status == b'I') && not rolled_back) in
      becomes s (return_idle c now n t discard false)
  advance_task s (discarding n fills) go = becomes (release_slot s) (after_discard fills)
  advance_task s (storing i fills) go =
      if s.closed
      then becomes (release_slot s) (after_discard fills)
      else becomes (record s { idle = s.idle ++ (i ∷ []) }) (after_discard fills)
  advance_task s filling go =
      if s.closed || leb (min c.min_idle c.max_size) (length s.idle) || leb c.max_size s.total
      then becomes s finished
      else becomes (record s { total = s.total + 1 }) opening
  advance_task s opening succeeded =
      becomes (opened_session s) (return_idle c now s.opened now false true)
  advance_task s opening (failed e) = becomes s closing_slot
  advance_task s opening cancels = loses s finished
  advance_task s closing_slot go = becomes (release_slot s) finished
  advance_task s ticking go = becomes (expire c now s) filling
  advance_task s closing go = becomes (record s { closed = true }) draining
  advance_task s draining cancels = becomes s finished
  advance_task s draining go =
      becomes (record s { total = s.total - length s.idle; idle = [] }) finished
  advance_task s t _ = becomes s t
