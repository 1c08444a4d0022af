-- ===== src/Migration/Plan/Applying.antt =====
-- Plans to apply.
use babar.Prelude.{
  ℕ, ◌≡◌, List, [], map, ok, length, drop, arith, sym, ap, ◌∙◌, subst, length-append, drop_all,
  length-map, length-drop, ok-injective,
}
use babar.Migration.Model.{MigrationPair, AppliedMigration}
use babar.Migration.Plan.{MigrationPlan, applying, plan_apply}
use babar.Migration.Plan.Reconcile.{reconcile_iff}
use babar.Migration.Plan.History.{
  row_of, execute, IsCatalog, pair_ids, row_ids, row_ids-AreRowsOf, execute-apply, plan_apply_lem,
  plan_apply-eq-ok, after_apply, length-AreRowsOf, row_ids-append, reconcile-after_apply,
}

-- `apply` is idempotent. When a plan to apply is made from an accepted history of a catalog and runs to
-- its end, the state table holds one row for each migration of the catalog, in order, and a plan that is
-- made from it then has no steps.
pub plan_apply_idempotent :
    (now : ℕ) (pairs : List MigrationPair) (applied : List AppliedMigration) {plan : MigrationPlan}
    → IsCatalog pairs
    → plan_apply pairs applied ≡ ok plan
    → let applied' = execute now plan.steps applied in
      (map (λ (a : AppliedMigration). a.id) applied' ≡ map (λ (p : MigrationPair). p.id) pairs)
      × (plan_apply pairs applied' ≡ ok (record { direction = applying; steps = [] }))
plan_apply_idempotent now pairs applied {plan = plan} c h =
    let r = plan_apply-eq-ok pairs applied h in
    let m = ((reconcile_iff pairs applied).0 r).1 in
    let e : execute now plan.steps applied ≡ after_apply now pairs applied =
      ap (λ (x : MigrationPlan). execute now x.steps applied)
        (ok-injective (sym h ∙ plan_apply_lem pairs applied r))
      ∙ execute-apply now (drop (length applied) pairs) applied in
    let l : drop (length (after_apply now pairs applied)) pairs ≡ [] =
      drop_all (length (after_apply now pairs applied)) pairs (
        omega (
          arith,
          length-append applied (map (row_of now) (drop (length applied) pairs)),
          length-map (drop (length applied) pairs) (row_of now),
          length-drop (length applied) pairs,
          length-AreRowsOf pairs applied m,
        )) in
    subst
      (λ rows.
        (row_ids rows ≡ pair_ids pairs)
        × (plan_apply pairs rows ≡ ok (record { direction = applying; steps = [] })))
      (sym e)
      (
        row_ids-append now (drop (length applied) pairs) applied
            ∙ row_ids-AreRowsOf pairs applied m,
        plan_apply_lem pairs (after_apply now pairs applied)
              (reconcile-after_apply now pairs applied c r)
            ∙ rw l,
      )
