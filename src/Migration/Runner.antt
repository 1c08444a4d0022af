-- ===== src/Migration/Runner.antt =====
-- crates/core/src/migration/runner.rs: running plans. What a statement returns is up to the server: it is
-- a function of all the statements sent so far. An action takes these and returns them with its own added.
pub mod Batches
pub mod Steps
pub mod Traces
mod Tests
use babar.Prelude.{
  ℕ, suc, ◌+◌, List, [], ◌∷◌, ◌++◌, Option, none, some, Bool, true, false, Result, ok, err, ok_or,
  if◌then◌else◌, ◌==◌, length, get_elem?,
}
use babar.Rust.{ascii, u64_to_string, ℤ, pos, negsuc, from_utf8, parse_u64}
use babar.Error.{Error}
use babar.Migration.Errors.{Text, MigrationError, invalid_applied_migration_row}
use babar.Migration.Checksum.{to_hex, parse_checksum}
use babar.Migration.Filename.{Text-discrete, new_id}
use babar.Migration.Directives.{parse_directive}
use babar.Migration.Model.{
  MigrationPair, AppliedMigration, MigrationTransactionMode, transactional, non_transactional,
  as_str,
}
use babar.Migration.Plan.{
  MigrationPlan, MigrationPlanStep, apply, rollback, plan_apply, plan_rollback,
}
use babar.Migration.Table.{
  MigrationTable, qualified_name, create_if_missing_sql, escape_sql_literal,
}
use mathlib.Core.Logic.{ite}
use babar.Migration.Statements.{
  RunError, RawRows, of_result, i64_to_string, quoted, insert_applied_migration_sql,
  delete_applied_migration_sql, lock_sql, unlock_sql, bad_row, try, column_text, required_text,
  version_of, mode_of, parse_applied_row, parse_rows, first_set, load_sql, of_session, of_migration,
}

abbrev pub Exec : Type 0 → Type 0
Exec A = List Text → List Text × Result RunError A

-- `?`.
abbrev pub and_then :
    {A B : Type 0} → (A → Exec B) → List Text × Result RunError A → List Text × Result RunError B
and_then k (sent, ok a) = k a sent
and_then k (sent, err e) = (sent, err e)

infixl 5 ◌>>=◌
abbrev pub ◌>>=◌ : {A B : Type 0} → Exec A → (A → Exec B) → Exec B
m >>= k = λ sent. and_then k (m sent)

infixl 5 ◌>>◌
abbrev pub ◌>>◌ : {A B : Type 0} → Exec A → Exec B → Exec B
m >> k = m >>= λ a. k

abbrev pub from : {A : Type 0} → Result RunError A → Exec A
from r sent = (sent, r)

-- `finish_locked_operation`.
abbrev pub finish_locked_operation :
    {A : Type 0} → Result RunError A → Result RunError (Unit {0}) → Result RunError A
finish_locked_operation (ok value) (ok u) = ok value
finish_locked_operation (ok value) (err e) = ok value
finish_locked_operation (err e) (ok u) = err e
finish_locked_operation (err e) (err f) = err e

-- `self.catalog()?`.
abbrev planned :
    Result MigrationError (List MigrationPair)
    → (List MigrationPair → Result MigrationError MigrationPlan)
    → Result MigrationError MigrationPlan
planned (ok pairs) f = f pairs
planned (err e) f = err e

module _ (server : List Text → Result RunError (List RawRows)) where
  abbrev pub simple_query : Text → Exec (List RawRows)
  simple_query sql sent = let sent' = sent ++ (sql ∷ []) in (sent', server sent')

  -- `.map(|_| ())`.
  abbrev pub execute_sql : Text → Exec (Unit {0})
  execute_sql sql = simple_query sql >>= λ rows. from (ok tt)

  -- An error rolls back, whatever the answer to that, and is returned.
  abbrev pub after_statement :
      Exec (Unit {0})
      → List Text × Result RunError (List RawRows)
      → List Text × Result RunError (Unit {0})
  after_statement k (sent, ok rows) = k sent
  after_statement k (sent, err e) = ((simple_query (ascii "ROLLBACK") sent).0, err e)

  unfoldable pub batch_loop : List Text → Exec (Unit {0})
  batch_loop [] = execute_sql (ascii "COMMIT")
  batch_loop (s ∷ statements) =
      λ sent. after_statement (batch_loop statements) (simple_query s sent)

  unfoldable pub transactional_batch : List Text → Exec (Unit {0})
  transactional_batch statements = simple_query (ascii "BEGIN") >>= λ rows. batch_loop statements

  unfoldable pub execute_script_and_state_change :
      Text → MigrationTransactionMode → Text → Exec (Unit {0})
  execute_script_and_state_change script_sql transactional state_sql =
      transactional_batch (script_sql ∷ state_sql ∷ [])
  execute_script_and_state_change script_sql non_transactional state_sql =
      simple_query script_sql >>= λ rows. transactional_batch (state_sql ∷ [])

  unfoldable pub execute_step : MigrationTable → MigrationPlanStep → Exec (Unit {0})
  execute_step table (apply p) =
      execute_script_and_state_change p.up_script.contents p.up_script.metadata.transaction_mode
        (insert_applied_migration_sql table p)
  execute_step table (rollback p a) =
      execute_script_and_state_change p.down_script.contents p.down_script.metadata.transaction_mode
        (delete_applied_migration_sql table p.id.version)

  unfoldable pub execute_steps : MigrationTable → List MigrationPlanStep → Exec (Unit {0})
  execute_steps table [] = from (ok tt)
  execute_steps table (s ∷ steps) = execute_step table s >>= λ u. execute_steps table steps

  -- The answer to `pg_advisory_unlock`.
  abbrev unlocked : List RawRows → Result RunError (Unit {0})
  unlocked [] = bad_row (ascii "advisory unlock did not return a result row")
  unlocked ([] ∷ sets) = bad_row (ascii "advisory unlock returned an empty result set")
  unlocked ((row ∷ rows) ∷ sets) = try (required_text row 0 (ascii "pg_advisory_unlock")) (λ s.
      ite (Text-discrete s (ascii "t")) (ok tt) (bad_row (ascii "advisory unlock returned " ++ s)))

  unfoldable pub release_advisory_lock : ℤ → Exec (Unit {0})
  release_advisory_lock id = simple_query (unlock_sql id) >>= λ rows. from (unlocked rows)

  -- The part of `apply` and `rollback` that holds the lock: the outcome of the work, then the unlock,
  -- then the one result of both.
  unfoldable pub with_lock : {A : Type 0} → ℤ → Exec A → Exec A
  with_lock id work = execute_sql (lock_sql id) >>= λ u sent.
      let (worked, outcome) = work sent in
      let (released, unlock) = release_advisory_lock id worked in
      (released, finish_locked_operation outcome unlock)

  unfoldable pub ensure_state_table : MigrationTable → Exec (Unit {0})
  ensure_state_table table = execute_sql (create_if_missing_sql table)

  unfoldable pub load_applied_migrations :
      (epoch : Text → Result RunError ℕ) → MigrationTable → Exec (List AppliedMigration)
  load_applied_migrations epoch table =
      simple_query (load_sql table) >>= λ sets. from (first_set epoch sets)

  -- What runs under the lock, for the planner of `apply` or of `rollback`.
  unfoldable pub run_plan :
      (epoch : Text → Result RunError ℕ)
      → MigrationTable
      → (List AppliedMigration → Result MigrationError MigrationPlan)
      → Exec MigrationPlan
  run_plan epoch table plan_of = load_applied_migrations epoch table >>= λ applied.
      from (of_result (plan_of applied)) >>= λ plan.
      execute_steps table plan.steps >>= λ u. from (ok plan)

  unfoldable pub run_locked :
      (epoch : Text → Result RunError ℕ)
      → MigrationTable
      → ℤ
      → (List AppliedMigration → Result MigrationError MigrationPlan)
      → Exec MigrationPlan
  run_locked epoch table lock_id plan_of =
      ensure_state_table table >>= λ u. with_lock lock_id (run_plan epoch table plan_of)

  -- `Migrator::apply` and `Migrator::rollback`, with the catalog that the source yields.
  abbrev pub migrate_up :
      (epoch : Text → Result RunError ℕ)
      → MigrationTable
      → ℤ
      → Result MigrationError (List MigrationPair)
      → Exec MigrationPlan
  migrate_up epoch table lock_id catalog =
      run_locked epoch table lock_id
        (λ applied. planned catalog (λ pairs. plan_apply pairs applied))

  abbrev pub migrate_down :
      (epoch : Text → Result RunError ℕ)
      → MigrationTable
      → ℤ
      → Result MigrationError (List MigrationPair)
      → ℕ
      → Exec MigrationPlan
  migrate_down epoch table lock_id catalog steps =
      run_locked epoch table lock_id
        (λ applied. planned catalog (λ pairs. plan_rollback pairs applied steps))
