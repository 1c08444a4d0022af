-- ===== src/Migration/Runner/Traces.antt =====
-- What a run of the migrator sends, and that it releases its lock.
use babar.Prelude.{
  ℕ, ◌≡◌, refl, List, [], ◌∷◌, ◌++◌, append_assoc, Result, ok, err, ok-injective, sym, ap, ◌∙◌,
  subst,
}
use babar.Rust.{ℤ}
use babar.Migration.Errors.{Text, MigrationError}
use babar.Migration.Model.{AppliedMigration}
use babar.Migration.Plan.{MigrationPlan}
use babar.Migration.Table.{MigrationTable, create_if_missing_sql}
use babar.Migration.Statements.{
  RunError, RawRows, of_result, lock_sql, unlock_sql, load_sql, first_set,
}
use babar.Migration.Runner.{
  Exec, and_then, from, execute_sql, execute_steps, release_advisory_lock, finish_locked_operation,
  with_lock, ensure_state_table, load_applied_migrations, run_plan, run_locked, ◌>>=◌, unlocked,
}
use babar.Migration.Runner.Batches.{and_then-eq-ok, execute_sql_lem, execute_sql-eq-ok, query_lem}
use babar.Migration.Runner.Steps.{steps_trace, execute_steps_lem}

module _ (server : List Text → Result RunError (List RawRows)) where
  load_applied_migrations_lem :
      (epoch : Text → Result RunError ℕ) (table : MigrationTable) (sent : List Text)
      → (load_applied_migrations server epoch table sent).0 ≡ sent ++ (load_sql table ∷ [])
  unfolding load_applied_migrations
  load_applied_migrations_lem epoch table sent =
      query_lem server (first_set epoch) (sent ++ (load_sql table ∷ []))
        (server (sent ++ (load_sql table ∷ [])))

  release_advisory_lock_lem :
      (id : ℤ) (sent : List Text)
      → (release_advisory_lock server id sent).0 ≡ sent ++ (unlock_sql id ∷ [])
  unfolding release_advisory_lock
  release_advisory_lock_lem id sent =
      query_lem server (unlocked server) (sent ++ (unlock_sql id ∷ []))
        (server (sent ++ (unlock_sql id ∷ [])))

  finish_locked_operation_lem :
      {A : Type 0} (outcome : Result RunError A) (unlock : Result RunError (Unit {0}))
      → finish_locked_operation outcome unlock ≡ outcome
  finish_locked_operation_lem (ok a) (ok u) = refl
  finish_locked_operation_lem (ok a) (err e) = refl
  finish_locked_operation_lem (err e) (ok u) = refl
  finish_locked_operation_lem (err e) (err f) = refl

  run_plan_lem :
      (epoch : Text → Result RunError ℕ) (table : MigrationTable)
      (plan_of : List AppliedMigration → Result MigrationError MigrationPlan) (sent : List Text)
      {plan : MigrationPlan}
      → (run_plan server epoch table plan_of sent).1 ≡ ok plan
      → (run_plan server epoch table plan_of sent).0
        ≡ sent ++ (load_sql table ∷ steps_trace table plan.steps)
  unfolding run_plan
  run_plan_lem epoch table plan_of sent {plan = plan} h =
      let finish : MigrationPlan → Exec MigrationPlan =
        λ p. execute_steps server table p.steps >>= λ u. from (ok p) in
      let plan_and_run : List AppliedMigration → Exec MigrationPlan =
        λ applied. from (of_result (plan_of applied)) >>= finish in
      let (applied, e1, q1, t1) =
        and_then-eq-ok server plan_and_run (load_applied_migrations server epoch table sent) h in
      let s1 = (load_applied_migrations server epoch table sent).0 in
      let (p, e2, q2, t2) =
        and_then-eq-ok server finish (from (of_result (plan_of applied)) s1) q1 in
      let (u, e3, q3, t3) =
        and_then-eq-ok server (λ u. from (ok p)) (execute_steps server table p.steps s1) q2 in
      t1
      ∙ t2
      ∙ t3
      ∙ execute_steps_lem server table p.steps s1 e3
      ∙ ap (λ x. x ++ steps_trace table p.steps) (load_applied_migrations_lem epoch table sent)
      ∙ append_assoc sent (load_sql table ∷ []) (steps_trace table p.steps)
      ∙ ap (λ (x : MigrationPlan). sent ++ (load_sql table ∷ steps_trace table x.steps))
          (ok-injective q3)

  -- Whatever happens under the lock, it is released, and that cannot change the result.
  with_lock_lem :
      {A : Type 0} (id : ℤ) (work : Exec A) (sent : List Text) {rows : List RawRows}
      → server (sent ++ (lock_sql id ∷ [])) ≡ ok rows
      → let (sent', r) = with_lock server id work sent in
        let (worked, outcome) = work (sent ++ (lock_sql id ∷ [])) in
        (sent' ≡ worked ++ (unlock_sql id ∷ [])) × (r ≡ outcome)
  unfolding with_lock
  with_lock_lem id work sent h =
      let locked = sent ++ (lock_sql id ∷ []) in
      let (worked, outcome) = work locked in
      let e : with_lock server id work sent ≡ (
        (release_advisory_lock server id worked).0,
        finish_locked_operation outcome (release_advisory_lock server id worked).1,
      ) =
        unfold with_lock in
        ap
          (and_then (λ u sent.
            let (worked, outcome) = work sent in
            let (released, unlock) = release_advisory_lock server id worked in
            (released, finish_locked_operation outcome unlock)))
          (execute_sql_lem server (lock_sql id) sent h) in
      (
        ap (λ x. x.0) e ∙ release_advisory_lock_lem id worked,
        ap (λ x. x.1) e
            ∙ finish_locked_operation_lem outcome (release_advisory_lock server id worked).1,
      )

  with_lock_acquired :
      {A : Type 0} (id : ℤ) (work : Exec A) (sent : List Text) {a : A}
      → (with_lock server id work sent).1 ≡ ok a
      → (rows : List RawRows) × (server (sent ++ (lock_sql id ∷ [])) ≡ ok rows)
  unfolding with_lock
  with_lock_acquired id work sent h =
      let (u, e, q, t) =
        and_then-eq-ok server
          (λ u sent.
            let (worked, outcome) = work sent in
            let (released, unlock) = release_advisory_lock server id worked in
            (released, finish_locked_operation outcome unlock))
          (execute_sql server (lock_sql id) sent) h in
      execute_sql-eq-ok server (lock_sql id) sent e

-- Once the state table is there and the advisory lock is taken, a run of the migrator ends by releasing
-- the lock, whether its work succeeds or fails; its result is that of the work, whatever the server
-- answers to the release.
pub run_locked_releases :
    (server : List Text → Result RunError (List RawRows)) (epoch : Text → Result RunError ℕ)
    (table : MigrationTable) (id : ℤ)
    (plan_of : List AppliedMigration → Result MigrationError MigrationPlan) (sent : List Text)
    {r1 r2 : List RawRows}
    → server (sent ++ (create_if_missing_sql table ∷ [])) ≡ ok r1
    → server (sent ++ (create_if_missing_sql table ∷ []) ++ (lock_sql id ∷ [])) ≡ ok r2
    → let (sent', r) = run_locked server epoch table id plan_of sent in
      let (worked, outcome) =
        run_plan server epoch table plan_of
          (sent ++ (create_if_missing_sql table ∷ []) ++ (lock_sql id ∷ [])) in
      (sent' ≡ worked ++ (unlock_sql id ∷ [])) × (r ≡ outcome)
unfolding run_locked ensure_state_table
run_locked_releases server epoch table id plan_of sent h k =
    let ready = sent ++ (create_if_missing_sql table ∷ []) in
    let e =
      ap (and_then (λ u. with_lock server id (run_plan server epoch table plan_of)))
        (execute_sql_lem server (create_if_missing_sql table) sent h) in
    let (a, b) = with_lock_lem server id (run_plan server epoch table plan_of) ready k in
    (ap (λ x. x.0) e ∙ a, ap (λ x. x.1) e ∙ b)

-- A run of the migrator that succeeds has sent, in this order, the creation of the state table, the lock,
-- the query of the applied rows, for each step of the plan its script and its change of the state table,
-- both in one transaction or the change alone in one, as the script declares, and at last the release.
pub run_locked_trace :
    (server : List Text → Result RunError (List RawRows)) (epoch : Text → Result RunError ℕ)
    (table : MigrationTable) (id : ℤ)
    (plan_of : List AppliedMigration → Result MigrationError MigrationPlan) (sent : List Text)
    {plan : MigrationPlan}
    → (run_locked server epoch table id plan_of sent).1 ≡ ok plan
    → (run_locked server epoch table id plan_of sent).0
      ≡ sent
        ++ (create_if_missing_sql table
            ∷ lock_sql id
            ∷ load_sql table
            ∷ steps_trace table plan.steps)
        ++ (unlock_sql id ∷ [])
unfolding run_locked ensure_state_table
run_locked_trace server epoch table id plan_of sent {plan = plan} h =
    let work = run_plan server epoch table plan_of in
    let ready = sent ++ (create_if_missing_sql table ∷ []) in
    let rest = load_sql table ∷ steps_trace table plan.steps in
    let (u, e1, q1, t1) =
      and_then-eq-ok server (λ u. with_lock server id work)
        (execute_sql server (create_if_missing_sql table) sent) h in
    let (r1, h1) = execute_sql-eq-ok server (create_if_missing_sql table) sent e1 in
    let there = ap (λ x. x.0) (execute_sql_lem server (create_if_missing_sql table) sent h1) in
    let (r2, h2) =
      with_lock_acquired server id work ready
        (subst (λ s. (with_lock server id work s).1 ≡ ok plan) there q1) in
    let (a, b) = run_locked_releases server epoch table id plan_of sent h1 h2 in
    a
    ∙ ap (λ s. s ++ (unlock_sql id ∷ []))
        (run_plan_lem server epoch table plan_of (ready ++ (lock_sql id ∷ [])) (sym b ∙ h)
          ∙ append_assoc ready (lock_sql id ∷ []) rest
          ∙ append_assoc sent (create_if_missing_sql table ∷ []) (lock_sql id ∷ rest))
