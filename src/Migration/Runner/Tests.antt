-- ===== src/Migration/Runner/Tests.antt =====
-- The theorems on the runner against two servers.
use babar.Prelude.{
  ℕ, ◌≡◌, refl, List, [], ◌∷◌, ◌++◌, some, Result, ok, err, length, ◌==◌, if◌then◌else◌, arith,
}
use babar.Rust.{ascii, pos}
use babar.Migration.Errors.{Text, MigrationError, invalid_name}
use babar.Migration.Filename.{MigrationKind, up, down}
use babar.Migration.Model.{MigrationScript, MigrationPair, AppliedMigration, non_transactional}
use babar.Migration.Plan.{MigrationPlan, plan_apply, apply, applying, reconcile, reconcile_loop}
use babar.Migration.Table.{
  MigrationTable, create_if_missing_sql, qualified_name, read_qualified, IsUnquoted,
  read_qualified-qualified_name,
}
use babar.Migration.Statements.{RunError, of_migration, RawRows, lock_sql, unlock_sql, load_sql}
use babar.Migration.Runner.{
  transactional_batch, batch_loop, run_locked, run_plan, with_lock, release_advisory_lock,
  ensure_state_table, load_applied_migrations, execute_steps, execute_step,
  execute_script_and_state_change,
}
use babar.Migration.Runner.Batches.{IsEnded, transactional_batch-IsEnded}
use babar.Migration.Runner.Steps.{steps_trace}
use babar.Migration.Runner.Traces.{run_locked_releases, run_locked_trace}

abbrev table : MigrationTable
table = record { schema = ascii "pub\"lic"; name = ascii "babar" }

space_ends : IsUnquoted b'"' (ascii " WHERE")
space_ends e = absurd (omega (arith, e))

read_qualified-qualified_name_example :
    read_qualified (qualified_name table ++ ascii " WHERE") ≡ some (table, ascii " WHERE")
read_qualified-qualified_name_example =
    read_qualified-qualified_name table (ascii " WHERE") space_ends

-- A server that refuses the second statement.
abbrev refusing : List Text → Result RunError (List RawRows)
refusing sent = if length sent == 2 then err (of_migration (invalid_name [])) else ok []

transactional_batch-IsEnded_example :
    IsEnded refusing
      (ascii "BEGIN" ∷ [])
      (ascii "S" ∷ ascii "T" ∷ [])
      (transactional_batch refusing (ascii "S" ∷ ascii "T" ∷ []) [])
transactional_batch-IsEnded_example =
    transactional_batch-IsEnded refusing (ascii "S" ∷ ascii "T" ∷ []) [] refl

-- A server that answers every statement with no result set.
abbrev silent : List Text → Result RunError (List RawRows)
silent sent = ok []

abbrev no_epoch : Text → Result RunError ℕ
no_epoch s = ok 0

abbrev script : MigrationKind → MigrationScript
script k = record {
  file = record { id = record { version = 1; name = ascii "a" }; kind = k };
  metadata = record { transaction_mode = non_transactional };
  contents = ascii "S";
  checksum = [];
}

abbrev pair : MigrationPair
pair = record {
  id = record { version = 1; name = ascii "a" };
  up_script = script up;
  down_script = script down;
}

abbrev planner : List AppliedMigration → Result MigrationError MigrationPlan
planner applied = plan_apply (pair ∷ []) applied

run_locked_releases_example :
    ((run_locked refusing no_epoch table (pos 7) planner (ascii "X" ∷ ascii "Y" ∷ [])).0
      ≡ (run_plan refusing no_epoch table planner
          (ascii "X" ∷ ascii "Y" ∷ create_if_missing_sql table ∷ lock_sql (pos 7) ∷ [])).0
        ++ (unlock_sql (pos 7) ∷ []))
    × ((run_locked refusing no_epoch table (pos 7) planner (ascii "X" ∷ ascii "Y" ∷ [])).1
        ≡ (run_plan refusing no_epoch table planner
            (ascii "X" ∷ ascii "Y" ∷ create_if_missing_sql table ∷ lock_sql (pos 7) ∷ [])).1)
run_locked_releases_example =
    run_locked_releases refusing no_epoch table (pos 7) planner (ascii "X" ∷ ascii "Y" ∷ []) refl
      refl

abbrev one_step : MigrationPlan
one_step = record { direction = applying; steps = apply pair ∷ [] }

one_step_runs : (run_locked silent no_epoch table (pos 7) planner []).1 ≡ ok one_step
unfolding run_locked with_lock run_plan ensure_state_table load_applied_migrations execute_steps
    execute_step execute_script_and_state_change transactional_batch batch_loop
    release_advisory_lock plan_apply reconcile reconcile_loop
one_step_runs = refl

run_locked_trace_example :
    (run_locked silent no_epoch table (pos 7) planner []).0
    ≡ (create_if_missing_sql table
        ∷ lock_sql (pos 7)
        ∷ load_sql table
        ∷ steps_trace table (apply pair ∷ []))
      ++ (unlock_sql (pos 7) ∷ [])
run_locked_trace_example =
    run_locked_trace silent no_epoch table (pos 7) planner [] {plan = one_step} one_step_runs
