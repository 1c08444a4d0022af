-- ===== src/Migration/Runner/Steps.antt =====
-- What the steps of a plan send.
use babar.Prelude.{◌≡◌, List, [], ◌∷◌, ◌++◌, append_assoc, append-nil, Result, ok, sym, ap, ◌∙◌}
use babar.Rust.{ascii}
use babar.Migration.Errors.{Text}
use babar.Migration.Model.{MigrationTransactionMode, transactional, non_transactional}
use babar.Migration.Plan.{MigrationPlanStep, apply, rollback}
use babar.Migration.Table.{MigrationTable}
use babar.Migration.Statements.{
  RunError, RawRows, insert_applied_migration_sql, delete_applied_migration_sql,
}
use babar.Migration.Runner.{
  simple_query, transactional_batch, execute_script_and_state_change, execute_step, execute_steps,
}
use babar.Migration.Runner.Batches.{and_then-eq-ok, transactional_batch_lem}

-- What a step sends if all goes well.
abbrev pub script_trace : Text → MigrationTransactionMode → Text → List Text
script_trace script transactional state = ascii "BEGIN" ∷ script ∷ state ∷ ascii "COMMIT" ∷ []
script_trace script non_transactional state = script ∷ ascii "BEGIN" ∷ state ∷ ascii "COMMIT" ∷ []

abbrev pub step_trace : MigrationTable → MigrationPlanStep → List Text
step_trace table (apply p) =
    script_trace p.up_script.contents p.up_script.metadata.transaction_mode
      (insert_applied_migration_sql table p)
step_trace table (rollback p a) =
    script_trace p.down_script.contents p.down_script.metadata.transaction_mode
      (delete_applied_migration_sql table p.id.version)

abbrev pub steps_trace : MigrationTable → List MigrationPlanStep → List Text
steps_trace table [] = []
steps_trace table (s ∷ steps) = step_trace table s ++ steps_trace table steps

module _ (server : List Text → Result RunError (List RawRows)) where
  execute_script_and_state_change_lem :
      (script : Text) (mode : MigrationTransactionMode) (state : Text) (sent : List Text)
      {u : Unit {0}}
      → (execute_script_and_state_change server script mode state sent).1 ≡ ok u
      → (execute_script_and_state_change server script mode state sent).0
        ≡ sent ++ script_trace script mode state
  unfolding execute_script_and_state_change
  execute_script_and_state_change_lem script transactional state sent h =
      transactional_batch_lem server (script ∷ state ∷ []) sent h
  execute_script_and_state_change_lem script non_transactional state sent h =
      let (rows, e, q, t) =
        and_then-eq-ok server (λ rows. transactional_batch server (state ∷ []))
          (simple_query server script sent) h in
      t
      ∙ transactional_batch_lem server (state ∷ []) (sent ++ (script ∷ [])) q
      ∙ append_assoc sent (script ∷ []) (ascii "BEGIN" ∷ state ∷ ascii "COMMIT" ∷ [])

  execute_step_lem :
      (table : MigrationTable) (s : MigrationPlanStep) (sent : List Text) {u : Unit {0}}
      → (execute_step server table s sent).1 ≡ ok u
      → (execute_step server table s sent).0 ≡ sent ++ step_trace table s
  unfolding execute_step
  execute_step_lem table (apply p) sent h =
      execute_script_and_state_change_lem p.up_script.contents p.up_script.metadata.transaction_mode
        (insert_applied_migration_sql table p) sent h
  execute_step_lem table (rollback p a) sent h =
      execute_script_and_state_change_lem p.down_script.contents
        p.down_script.metadata.transaction_mode (delete_applied_migration_sql table p.id.version)
        sent h

  pub execute_steps_lem :
      (table : MigrationTable) (steps : List MigrationPlanStep) (sent : List Text) {u : Unit {0}}
      → (execute_steps server table steps sent).1 ≡ ok u
      → (execute_steps server table steps sent).0 ≡ sent ++ steps_trace table steps
  unfolding execute_steps
  execute_steps_lem table [] sent h = sym (append-nil sent)
  execute_steps_lem table (s ∷ steps) sent h =
      let (v, e, q, t) =
        and_then-eq-ok server (λ u. execute_steps server table steps)
          (execute_step server table s sent) h in
      t
      ∙ execute_steps_lem table steps (execute_step server table s sent).0 q
      ∙ ap (λ x. x ++ steps_trace table steps) (execute_step_lem table s sent e)
      ∙ append_assoc sent (step_trace table s) (steps_trace table steps)
