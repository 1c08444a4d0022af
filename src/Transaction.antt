-- ===== src/Transaction.antt =====
-- crates/core/src/transaction.rs, and the scopes on a pooled connection of crates/core/src/pool.rs.
-- What becomes of a statement is a function of all the statements sent so far, with it as the last.
mod Nesting
pub mod Scopes
pub mod Endings
mod Tests
use babar.Prelude.{
  ℕ, ◌+◌, ◌%◌, ◌^◌, List, [], ◌∷◌, ◌++◌, Option, none, some, Bool, true, false, Result, ok, err,
  if◌then◌else◌,
}
use babar.Rust.{ascii, u64_to_string}
use babar.Error.{Error}
use babar.Pool.Config.{record_error}

-- The number stands for the savepoint's name.
pub data Statement : Type 0 where
  begin commit rollback : Statement
  savepoint rollback_to release : ℕ → Statement
  sql : List ℕ → Statement

-- `next_savepoint_name`, whose counter wraps around.
abbrev pub savepoint_name : (pooled : Bool) → ℕ → List ℕ
savepoint_name pooled id =
    ascii (if pooled then "babar_pool_sp_" else "babar_sp_") ++ u64_to_string id

abbrev pub statement_sql : (pooled : Bool) → Statement → List ℕ
statement_sql pooled begin = ascii "BEGIN"
statement_sql pooled commit = ascii "COMMIT"
statement_sql pooled rollback = ascii "ROLLBACK"
statement_sql pooled (savepoint n) = ascii "SAVEPOINT " ++ savepoint_name pooled n
statement_sql pooled (rollback_to n) = ascii "ROLLBACK TO SAVEPOINT " ++ savepoint_name pooled n
statement_sql pooled (release n) = ascii "RELEASE SAVEPOINT " ++ savepoint_name pooled n
statement_sql pooled (sql s) = s

-- What is known beside the answers: the statements sent, the counter of the names, the statements that
-- spawned tasks are to send, in the order in which they were spawned, and the connection's flag.
pub record Trace : Type 0 where
  pub sent : List Statement
  pub next_id : ℕ
  pub spawned : List Statement
  pub broken : Bool

-- The closure `f`: it returns, sends a statement and goes on with its answer, opens a savepoint and goes
-- on with its result, or its future is dropped where it waits for something else.
pub data Program (V : Type 0) : Type 0 where
  returns : Result Error V → Program V
  calls : List ℕ → (Result Error V → Program V) → Program V
  nests : Program V → (Result Error V → Program V) → Program V
  abandons : Program V

-- What becomes of a statement: the future is dropped while it waits for room in the driver's inbox, or
-- for the answer; the driver is gone; or it is answered.
pub data Delivery (V : Type 0) : Type 0 where
  unqueued unanswered : Delivery V
  undeliverable : Error → Delivery V
  replied : Result Error V → Delivery V

-- `in_runtime` says whether a guard that is dropped finds a runtime to spawn its task on.
module _ {V : Type 0} (pooled : Bool) (server : List Statement → Delivery V)
    (in_runtime : Trace → Bool) where
  abbrev pub Outcome : Type 0
  Outcome = Trace × Option (Result Error V)

  abbrev pub delivered : (t with_it : Trace) → Delivery V → Outcome
  delivered t u unqueued = (t, none)
  delivered t u unanswered = (u, none)
  delivered t u (undeliverable e) = (t, some (err e))
  delivered t u (replied r) = (u, some r)

  -- `run_control_command`, and the calls of the closure.
  abbrev pub send_statement : Statement → Trace → Outcome
  send_statement s t =
      let sent = t.sent ++ (s ∷ []) in delivered t (record t { sent = sent }) (server sent)

  -- `Drop for ScopeGuard` when it is still active.
  abbrev pub drop_guard : (cleanup : List Statement) → Trace → Trace
  drop_guard cleanup t = if in_runtime t then record t { spawned = t.spawned ++ cleanup } else t

  -- `mark_broken`, which only the pool's scopes call.
  abbrev pub mark : Error → Trace → Trace
  mark e t = if pooled then record t { broken = record_error t.broken e } else t

  -- A control command with `?`: on no answer and on an error the guard is dropped.
  abbrev pub guarded : (cleanup : List Statement) → Outcome → (Trace → Outcome) → Outcome
  guarded cleanup (t, none) k = (drop_guard cleanup t, none)
  guarded cleanup (t, some (err e)) k = (drop_guard cleanup t, some (err e))
  guarded cleanup (t, some (ok v)) k = k t

  -- The end of the top-level scope. The guard is disarmed once the server has answered ROLLBACK.
  abbrev pub rolled_back : Error → Outcome → Outcome
  rolled_back e (t, none) = (drop_guard (rollback ∷ []) t, none)
  rolled_back e (t, some (err f)) = (t, some (err f))
  rolled_back e (t, some (ok v)) = (mark e t, some (err e))

  abbrev pub end_transaction : Outcome → Outcome
  end_transaction (t, none) = (drop_guard (rollback ∷ []) t, none)
  end_transaction (t, some (ok v)) =
      guarded (rollback ∷ []) (send_statement commit t) (λ u. (u, some (ok v)))
  end_transaction (t, some (err e)) = rolled_back e (send_statement rollback t)

  -- `Session::transaction`, `PoolConnection::transaction`.
  unfoldable pub transaction : (f : Trace → Outcome) → Trace → Outcome
  transaction f t = guarded (rollback ∷ []) (send_statement begin t) (λ u. end_transaction (f u))

  abbrev pub cleanup_savepoint : ℕ → List Statement
  cleanup_savepoint n = rollback_to n ∷ release n ∷ []

  abbrev pub end_savepoint : ℕ → Outcome → Outcome
  end_savepoint n (t, none) = (drop_guard (cleanup_savepoint n) t, none)
  end_savepoint n (t, some (ok v)) =
      guarded (cleanup_savepoint n) (send_statement (release n) t) (λ u. (u, some (ok v)))
  end_savepoint n (t, some (err e)) =
      guarded (cleanup_savepoint n) (send_statement (rollback_to n) t) (λ u.
        guarded (cleanup_savepoint n) (send_statement (release n) u)
          (λ w. (mark e w, some (err e))))

  -- `run_savepoint`, `run_pooled_savepoint`.
  unfoldable pub run_savepoint : (f : Trace → Outcome) → Trace → Outcome
  run_savepoint f t =
      let n = t.next_id in
      guarded (cleanup_savepoint n)
        (send_statement (savepoint n) (record t { next_id = (n + 1) % 2 ^ 64 }))
        (λ u. end_savepoint n (f u))

  abbrev pub answered : (Result Error V → Trace → Outcome) → Outcome → Outcome
  answered k (t, none) = (t, none)
  answered k (t, some r) = k r t

  -- The future of the closure.
  unfoldable pub run_program : Program V → Trace → Outcome
  run_program (returns r) t = (t, some r)
  run_program (calls s k) t = answered (λ r u. run_program (k r) u) (send_statement (sql s) t)
  run_program (nests f k) t =
      answered (λ r u. run_program (k r) u) (run_savepoint (λ u. run_program f u) t)
  run_program abandons t = (t, none)
