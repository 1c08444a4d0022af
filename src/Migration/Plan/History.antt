-- ===== src/Migration/Plan/History.antt =====
-- The state table as a history of rows, and what the steps of a plan do to it.
use babar.Prelude.{
  ℕ, ◌<◌, ◌≤◌, ◌≡◌, refl, List, [], ◌∷◌, ◌++◌, map, append-nil, append_assoc, none, some, false, ok,
  >>=-eq-ok, length, take, drop, ◌==◌, if◌then◌else◌, arith, sym, ap, ◌∙◌, subst,
}
use babar.Migration.Filename.{MigrationId, leb_id}
use babar.Migration.Model.{MigrationPair, AppliedMigration}
use babar.Migration.Plan.{
  MigrationPlan, MigrationPlanStep, apply, rollback, applying, rolling_back, plan_apply,
  plan_rollback, rollback_steps, reconcile,
}
use babar.Migration.Plan.Reconcile.{AreRowsOf, IsAscending, reconcile_iff, reconcile_same}

-- The row that applying a pair at a time inserts.
abbrev pub row_of : ℕ → MigrationPair → AppliedMigration
row_of now p = record {
  id = p.id;
  up_checksum = p.up_script.checksum;
  down_checksum = p.down_script.checksum;
  up_transaction_mode = p.up_script.metadata.transaction_mode;
  down_transaction_mode = p.down_script.metadata.transaction_mode;
  applied_at = now;
}

-- `DELETE … WHERE version = …`.
abbrev pub delete_version : ℕ → List AppliedMigration → List AppliedMigration
delete_version v [] = []
delete_version v (a ∷ rows) =
    let rest = delete_version v rows in if a.id.version == v then rest else a ∷ rest

-- What the steps of a plan do to the state table.
abbrev pub execute : ℕ → List MigrationPlanStep → List AppliedMigration → List AppliedMigration
execute now [] rows = rows
execute now (apply p ∷ steps) rows = execute now steps (rows ++ (row_of now p ∷ []))
execute now (rollback p a ∷ steps) rows = execute now steps (delete_version p.id.version rows)

-- The versions of a catalog ascend strictly.
abbrev pub IsCatalog : List MigrationPair → Type 0
IsCatalog [] = Unit
IsCatalog (p ∷ []) = Unit
IsCatalog (p ∷ q ∷ pairs) = (p.id.version < q.id.version) × IsCatalog (q ∷ pairs)

abbrev pub pair_ids : List MigrationPair → List MigrationId
pair_ids = map (λ (p : MigrationPair). p.id)

abbrev pub row_ids : List AppliedMigration → List MigrationId
row_ids = map (λ (a : AppliedMigration). a.id)

not_leb_id : (a b : MigrationId) → a.version < b.version → leb_id b a ≡ false
unfolding leb_id
not_leb_id a b h = ground arith

IsCatalog-IsAscending :
    (p : MigrationPair) (pairs : List MigrationPair)
    → IsCatalog (p ∷ pairs)
    → IsAscending (some p.id) (pair_ids pairs)
IsCatalog-IsAscending p [] h = tt
IsCatalog-IsAscending p (q ∷ pairs) (v, h) =
    (not_leb_id p.id q.id v, IsCatalog-IsAscending q pairs h)

pair_ids-IsAscending :
    (pairs : List MigrationPair) → IsCatalog pairs → IsAscending none (pair_ids pairs)
pair_ids-IsAscending [] h = tt
pair_ids-IsAscending (p ∷ pairs) h = IsCatalog-IsAscending p pairs h

pub row_ids-AreRowsOf :
    (pairs : List MigrationPair) (rows : List AppliedMigration)
    → AreRowsOf pairs rows
    → row_ids rows ++ pair_ids (drop (length rows) pairs) ≡ pair_ids pairs
row_ids-AreRowsOf pairs [] h = refl
row_ids-AreRowsOf [] (a ∷ rows) h = absurd h
row_ids-AreRowsOf (p ∷ pairs) (a ∷ rows) (r, h) =
    ap (λ ids. a.id ∷ ids) (row_ids-AreRowsOf pairs rows h)
    ∙ ap (λ i. i ∷ pair_ids pairs) (sym r.ids)

-- The steps of `plan_apply`, run.
pub execute-apply :
    (now : ℕ) (pairs : List MigrationPair) (rows : List AppliedMigration)
    → execute now (map apply pairs) rows ≡ rows ++ map (row_of now) pairs
execute-apply now [] rows = sym (append-nil rows)
execute-apply now (p ∷ pairs) rows =
    execute-apply now pairs (rows ++ (row_of now p ∷ []))
    ∙ append_assoc rows (row_of now p ∷ []) (map (row_of now) pairs)

pub AreRowsOf-append :
    (now : ℕ) (pairs : List MigrationPair) (rows : List AppliedMigration)
    → AreRowsOf pairs rows
    → AreRowsOf pairs (rows ++ map (row_of now) (drop (length rows) pairs))
AreRowsOf-append now [] [] h = tt
AreRowsOf-append now (p ∷ pairs) [] h = (
  record {
    ids = refl;
    up_checksums = refl;
    down_checksums = refl;
    up_modes = refl;
    down_modes = refl;
  },
  AreRowsOf-append now pairs [] tt,
)
AreRowsOf-append now [] (a ∷ rows) h = absurd h
AreRowsOf-append now (p ∷ pairs) (a ∷ rows) (r, h) = (r, AreRowsOf-append now pairs rows h)

-- Both planners go through `reconcile`.
pub plan_apply_lem :
    (pairs : List MigrationPair) (applied : List AppliedMigration)
    → reconcile pairs applied ≡ ok applied
    → plan_apply pairs applied
      ≡ ok (record { direction = applying; steps = map apply (drop (length applied) pairs) })
unfolding plan_apply
plan_apply_lem pairs applied h = rw h

pub plan_apply-eq-ok :
    (pairs : List MigrationPair) (applied : List AppliedMigration) {plan : MigrationPlan}
    → plan_apply pairs applied ≡ ok plan
    → reconcile pairs applied ≡ ok applied
unfolding plan_apply
plan_apply-eq-ok pairs applied h =
    let (rows, e, k) = >>=-eq-ok (reconcile pairs applied) _ h in
    e ∙ ap ok (reconcile_same pairs applied e)

pub plan_rollback_made :
    (pairs : List MigrationPair) (applied : List AppliedMigration) (n : ℕ)
    → reconcile pairs applied ≡ ok applied
    → plan_rollback pairs applied n
      ≡ ok (record { direction = rolling_back; steps = take n (rollback_steps pairs 0 applied []) })
unfolding plan_rollback
plan_rollback_made pairs applied n h = rw h

-- All the rows that there are once the plan has run.
abbrev pub after_apply : ℕ → List MigrationPair → List AppliedMigration → List AppliedMigration
after_apply now pairs applied = applied ++ map (row_of now) (drop (length applied) pairs)

pub length-AreRowsOf :
    (pairs : List MigrationPair) (rows : List AppliedMigration)
    → AreRowsOf pairs rows
    → length rows ≤ length pairs
length-AreRowsOf pairs [] h = omega arith
length-AreRowsOf [] (a ∷ rows) h = absurd h
length-AreRowsOf (p ∷ pairs) (a ∷ rows) (r, h) = omega (arith, length-AreRowsOf pairs rows h)

row_ids-map :
    (now : ℕ) (pairs : List MigrationPair) → row_ids (map (row_of now) pairs) ≡ pair_ids pairs
row_ids-map now [] = refl
row_ids-map now (p ∷ pairs) = ap (λ ids. p.id ∷ ids) (row_ids-map now pairs)

pub row_ids-append :
    (now : ℕ) (pairs : List MigrationPair) (rows : List AppliedMigration)
    → row_ids (rows ++ map (row_of now) pairs) ≡ row_ids rows ++ pair_ids pairs
row_ids-append now pairs [] = row_ids-map now pairs
row_ids-append now pairs (a ∷ rows) = ap (λ ids. a.id ∷ ids) (row_ids-append now pairs rows)

pub reconcile-after_apply :
    (now : ℕ) (pairs : List MigrationPair) (applied : List AppliedMigration)
    → IsCatalog pairs
    → reconcile pairs applied ≡ ok applied
    → reconcile pairs (after_apply now pairs applied) ≡ ok (after_apply now pairs applied)
reconcile-after_apply now pairs applied c h =
    let (o, m) = (reconcile_iff pairs applied).0 h in
    let ids =
      row_ids-append now (drop (length applied) pairs) applied
      ∙ row_ids-AreRowsOf pairs applied m in
    (reconcile_iff pairs (after_apply now pairs applied)).1 (
      subst (IsAscending none) (sym ids) (pair_ids-IsAscending pairs c),
      AreRowsOf-append now pairs applied m,
    )
