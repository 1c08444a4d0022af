-- ===== src/Migration/Plan/RollingBack.antt =====
-- Plans to roll back.
use babar.Prelude.{
  ℕ, zero, suc, ◌+◌, ◌-◌, ◌<◌, ◌≡◌, refl, List, [], ◌∷◌, ◌++◌, map, take_front, take-append_le,
  some, ok, >>=-eq-ok, length, get_elem?, take, drop, ==_refl, ne→==, arith, sym, ap, ◌∙◌, subst,
  length-append, take_all, snoc-cases, length-map, ok-injective,
}
use babar.Migration.Filename.{MigrationId}
use babar.Migration.Model.{MigrationPair, AppliedMigration}
use babar.Migration.Plan.{
  MigrationPlan, MigrationPlanStep, apply, rollback, rolling_back, plan_apply, plan_rollback,
  rollback_steps, rollback_step, reconcile,
}
use babar.Migration.Plan.Reconcile.{AreRowsOf, reconcile_iff, reconcile_same}
use babar.Migration.Plan.History.{
  row_of, delete_version, execute, IsCatalog, execute-apply, AreRowsOf-append, plan_apply_lem,
  plan_apply-eq-ok, plan_rollback_made, after_apply, reconcile-after_apply,
}

rollback_steps_last :
    (pairs : List MigrationPair) (i : ℕ) (front : List AppliedMigration) (a : AppliedMigration)
    (later : List MigrationPlanStep)
    → rollback_steps pairs i (front ++ (a ∷ [])) later
      ≡ rollback_step (get_elem? pairs (i + length front)) a (rollback_steps pairs i front later)
unfolding rollback_steps
rollback_steps_last pairs i [] a later =
    let j : i ≡ i + 0 = omega arith in ap (λ k. rollback_step (get_elem? pairs k) a later) j
rollback_steps_last pairs i (b ∷ front) a later =
    let more = rollback_step (get_elem? pairs i) b later in
    let j : suc i + length front ≡ i + suc (length front) = omega arith in
    rollback_steps_last pairs (suc i) front a more
    ∙ ap (λ k. rollback_step (get_elem? pairs k) a (rollback_steps pairs (suc i) front more)) j

-- The pair of the last row, and that its version is above those of the rows before it.
last_pair :
    (pairs : List MigrationPair) (front : List AppliedMigration) (a : AppliedMigration)
    → AreRowsOf pairs (front ++ (a ∷ []))
    → (p : MigrationPair) × (get_elem? pairs (length front) ≡ some p)
      × (p.id ≡ a.id)
      × AreRowsOf pairs front
last_pair [] [] a h = absurd h
last_pair (p ∷ pairs) [] a (r, h) = (p, refl, r.ids, tt)
last_pair [] (b ∷ front) a h = absurd h
last_pair (p ∷ pairs) (b ∷ front) a (r, h) =
    let (q, g, i, m) = last_pair pairs front a h in (q, g, i, (r, m))

first_below_last :
    (p : MigrationPair) (pairs : List MigrationPair) (front : List AppliedMigration)
    (a : AppliedMigration)
    → IsCatalog (p ∷ pairs)
    → AreRowsOf pairs (front ++ (a ∷ []))
    → p.id.version < a.id.version
first_below_last p [] [] a c h = absurd h
first_below_last p (q ∷ pairs) [] a (v, c) (r, h) =
    subst (λ (i : MigrationId). p.id.version < i.version) r.ids v
first_below_last p [] (b ∷ front) a c h = absurd h
first_below_last p (q ∷ pairs) (b ∷ front) a (v, c) (r, h) =
    omega (arith, first_below_last q pairs front a c h)

IsCatalog-tail :
    (p : MigrationPair) (pairs : List MigrationPair) → IsCatalog (p ∷ pairs) → IsCatalog pairs
IsCatalog-tail p [] c = tt
IsCatalog-tail p (q ∷ pairs) (v, c) = c

delete_version_last :
    (pairs : List MigrationPair) (front : List AppliedMigration) (a : AppliedMigration)
    → IsCatalog pairs
    → AreRowsOf pairs (front ++ (a ∷ []))
    → delete_version a.id.version (front ++ (a ∷ [])) ≡ front
delete_version_last pairs [] a c h = rw (==_refl a.id.version)
delete_version_last [] (b ∷ front) a c h = absurd h
delete_version_last (p ∷ pairs) (b ∷ front) a c (r, h) =
    let below : b.id.version < a.id.version =
      subst (λ (i : MigrationId). i.version < a.id.version) r.ids
        (first_below_last p pairs front a c h) in
    rw (
      ne→== b.id.version a.id.version (omega arith),
      delete_version_last pairs front a (IsCatalog-tail p pairs c) h,
    )

execute-rollback :
    (now : ℕ) (pairs : List MigrationPair) (n : ℕ) (rows : List AppliedMigration)
    → IsCatalog pairs
    → AreRowsOf pairs rows
    → execute now (take n (rollback_steps pairs 0 rows [])) rows ≡ take (length rows - n) rows
execute-rollback now pairs zero rows c h = sym (take_all (length rows - 0) rows (omega arith))
execute-rollback now pairs (suc n) [] c h =
    unfold rollback_steps in sym (take_all (0 - suc n) [] (omega arith))
execute-rollback now pairs (suc n) (b ∷ rest) c h =
    let (front, a, e, l) = snoc-cases (b ∷ rest) (length rest) refl in
    let h' = subst (AreRowsOf pairs) e h in
    let (p, g, i, m) = last_pair pairs front a h' in
    let steps : rollback_steps pairs 0 (front ++ (a ∷ [])) []
        ≡ rollback p a ∷ rollback_steps pairs 0 front [] =
      rollback_steps_last pairs 0 front a []
      ∙ ap (λ o. rollback_step o a (rollback_steps pairs 0 front []))
          (ap (get_elem? pairs) (omega arith) ∙ g) in
    let gone : delete_version p.id.version (front ++ (a ∷ [])) ≡ front =
      ap (λ (k : MigrationId). delete_version k.version (front ++ (a ∷ []))) i
      ∙ delete_version_last pairs front a c h' in
    subst
      (λ rows.
        execute now (take (suc n) (rollback_steps pairs 0 rows [])) rows
        ≡ take (length rows - suc n) rows)
      (sym e)
      (ap (λ st. execute now (take (suc n) st) (front ++ (a ∷ []))) steps
        ∙ ap (execute now (take n (rollback_steps pairs 0 front []))) gone
        ∙ execute-rollback now pairs n front c m
        ∙ sym (take-append_le (length front - n) front (a ∷ []) (omega arith))
        ∙ ap (λ k. take k (front ++ (a ∷ []))) (omega (arith, length-append front (a ∷ []))))

plan_rollback-eq-ok :
    (pairs : List MigrationPair) (applied : List AppliedMigration) (n : ℕ) {plan : MigrationPlan}
    → plan_rollback pairs applied n ≡ ok plan
    → reconcile pairs applied ≡ ok applied
unfolding plan_rollback
plan_rollback-eq-ok pairs applied n h =
    let (rows, e, k) = >>=-eq-ok (reconcile pairs applied) _ h in
    e ∙ ap ok (reconcile_same pairs applied e)

-- When a plan to roll back `n` steps is made from an accepted history of a catalog and runs to its end,
-- it takes exactly the last `n` rows off the state table, or all of them if there are fewer.
pub plan_rollback_lem :
    (now : ℕ) (pairs : List MigrationPair) (applied : List AppliedMigration) (n : ℕ)
    {plan : MigrationPlan}
    → IsCatalog pairs
    → plan_rollback pairs applied n ≡ ok plan
    → execute now plan.steps applied ≡ take (length applied - n) applied
plan_rollback_lem now pairs applied n c h =
    let r = plan_rollback-eq-ok pairs applied n h in
    ap (λ (x : MigrationPlan). execute now x.steps applied)
      (ok-injective (sym h ∙ plan_rollback_made pairs applied n r))
    ∙ execute-rollback now pairs n applied c ((reconcile_iff pairs applied).0 r).1

undo_after_apply :
    (now : ℕ) (pairs : List MigrationPair) (applied : List AppliedMigration)
    → IsCatalog pairs
    → reconcile pairs applied ≡ ok applied
    → let rows = after_apply now pairs applied in
      (back : MigrationPlan) × (plan_rollback pairs rows
          (length (map apply (drop (length applied) pairs)))
        ≡ ok back)
      × (execute now back.steps rows ≡ applied)
undo_after_apply now pairs applied c h =
    let rest = drop (length applied) pairs in
    let n = length (map apply rest) in
    let rows = after_apply now pairs applied in
    let m = AreRowsOf-append now pairs applied ((reconcile_iff pairs applied).0 h).1 in
    let l : length rows - n ≡ length applied = omega (
      arith,
      length-append applied (map (row_of now) rest),
      length-map rest (row_of now),
      length-map rest apply,
    ) in
    (
      record { direction = rolling_back; steps = take n (rollback_steps pairs 0 rows []) },
      plan_rollback_made pairs rows n (reconcile-after_apply now pairs applied c h),
      execute-rollback now pairs n rows c m
          ∙ ap (λ k. take k rows) l
          ∙ take_front applied (map (row_of now) rest),
    )

abbrev UndoneFrom : ℕ → List MigrationPair → List AppliedMigration → MigrationPlan → Type 0
UndoneFrom now pairs applied plan =
    let rows = execute now plan.steps applied in
    (back : MigrationPlan) × (plan_rollback pairs rows (length plan.steps) ≡ ok back)
    × (execute now back.steps rows ≡ applied)

-- Rolling back undoes applying: after a plan to apply has run on a history of a catalog, a plan to roll
-- back as many steps can be made, and running it gives back the history.
pub rollback_undoes_apply :
    (now : ℕ) (pairs : List MigrationPair) (applied : List AppliedMigration) {plan : MigrationPlan}
    → IsCatalog pairs
    → plan_apply pairs applied ≡ ok plan
    → let applied' = execute now plan.steps applied in
      (back : MigrationPlan) × (plan_rollback pairs applied' (length plan.steps) ≡ ok back)
      × (execute now back.steps applied' ≡ applied)
rollback_undoes_apply now pairs applied {plan = plan} c h =
    let r = plan_apply-eq-ok pairs applied h in
    let rest = drop (length applied) pairs in
    let made = ok-injective (sym (plan_apply_lem pairs applied r) ∙ h) in
    subst (UndoneFrom now pairs applied) made (
      subst
        (λ rows.
          (back : MigrationPlan) × (plan_rollback pairs rows (length (map apply rest)) ≡ ok back)
          × (execute now back.steps rows ≡ applied))
        (sym (execute-apply now rest applied)) (undo_after_apply now pairs applied c r))
