-- ===== src/Migration/Tests.antt =====
-- The theorems on migrations at concrete files and histories.
use babar.Prelude.{◌≡◌, ◌↔◌, none, refl, List, [], ◌∷◌, ok, map, arith}
use babar.Rust.{ascii}
use babar.Migration.Checksum.{MigrationChecksum, to_hex, parse_checksum, parse_checksum-to_hex}
use babar.Migration.Filename.{MigrationFilename, MigrationId, up, down}
use babar.Migration.Model.{MigrationScript, MigrationPair, AppliedMigration, transactional}
use babar.Migration.Plan.{
  MigrationPlan, reconcile, plan_apply, plan_rollback, rollback_steps, apply, rollback, applying,
  rolling_back,
}
use babar.Migration.Plan.Reconcile.{reconcile_iff, IsAscending, AreRowsOf}
use babar.Migration.Plan.History.{row_of, execute}
use babar.Migration.Plan.Applying.{plan_apply_idempotent}
use babar.Migration.Plan.RollingBack.{plan_rollback_lem, rollback_undoes_apply}

abbrev digest : MigrationChecksum
digest =
    0 ∷ 1 ∷ 2 ∷ 3 ∷ 4 ∷ 5 ∷ 6 ∷ 7 ∷ 8 ∷ 9 ∷ 10 ∷ 171 ∷ 12 ∷ 13 ∷ 14 ∷ 255 ∷ 0 ∷ 1 ∷ 2 ∷ 3 ∷ 4 ∷ 5
    ∷ 6 ∷ 7 ∷ 8 ∷ 9 ∷ 10 ∷ 171 ∷ 12 ∷ 13 ∷ 14 ∷ 255 ∷ []

parse_checksum-to_hex_example : parse_checksum (to_hex digest) ≡ ok digest
parse_checksum-to_hex_example = parse_checksum-to_hex digest refl (ground arith)

abbrev script : MigrationFilename → MigrationScript
script f = record {
  file = f;
  metadata = record { transaction_mode = transactional };
  contents = ascii "SELECT 1;";
  checksum = digest;
}

abbrev bootstrap : MigrationId
bootstrap = record { version = 1; name = ascii "bootstrap" }

abbrev seed : MigrationId
seed = record { version = 2; name = ascii "seed" }

abbrev pair : MigrationId → MigrationPair
pair id = record {
  id = id;
  up_script = script (record { id = id; kind = up });
  down_script = script (record { id = id; kind = down });
}

abbrev catalog : List MigrationPair
catalog = pair bootstrap ∷ pair seed ∷ []

abbrev history : List AppliedMigration
history = row_of 7 (pair bootstrap) ∷ []

reconcile_iff_example :
    (reconcile catalog history ≡ ok history)
    ↔ (IsAscending none (bootstrap ∷ []) × AreRowsOf catalog history)
reconcile_iff_example = reconcile_iff catalog history

history_accepted : reconcile catalog history ≡ ok history
history_accepted = (reconcile_iff catalog history).1 (
  tt,
  (
    record {
      ids = refl;
      up_checksums = refl;
      down_checksums = refl;
      up_modes = refl;
      down_modes = refl;
    },
    tt,
  ),
)

abbrev apply_seed : MigrationPlan
apply_seed = record { direction = applying; steps = apply (pair seed) ∷ [] }

seed_is_planned : plan_apply catalog history ≡ ok apply_seed
unfolding plan_apply
seed_is_planned = rw history_accepted

plan_apply_idempotent_example :
    (map (λ (a : AppliedMigration). a.id) (execute 9 (apply (pair seed) ∷ []) history)
      ≡ bootstrap ∷ seed ∷ [])
    × (plan_apply catalog (execute 9 (apply (pair seed) ∷ []) history)
        ≡ ok (record { direction = applying; steps = [] }))
plan_apply_idempotent_example =
    plan_apply_idempotent 9 catalog history {plan = apply_seed} (omega arith, tt) seed_is_planned

abbrev undo_bootstrap : MigrationPlan
undo_bootstrap = record {
  direction = rolling_back;
  steps = rollback (pair bootstrap) (row_of 7 (pair bootstrap)) ∷ [];
}

bootstrap_is_planned : plan_rollback catalog history 3 ≡ ok undo_bootstrap
unfolding plan_rollback rollback_steps
bootstrap_is_planned = rw history_accepted

plan_rollback_lem_example : execute 9 undo_bootstrap.steps history ≡ []
plan_rollback_lem_example =
    plan_rollback_lem 9 catalog history 3 {plan = undo_bootstrap} (omega arith, tt)
      bootstrap_is_planned

rollback_undoes_apply_example :
    (back : MigrationPlan) × (plan_rollback catalog (execute 9 (apply (pair seed) ∷ []) history) 1
      ≡ ok back)
    × (execute 9 back.steps (execute 9 (apply (pair seed) ∷ []) history) ≡ history)
rollback_undoes_apply_example =
    rollback_undoes_apply 9 catalog history {plan = apply_seed} (omega arith, tt) seed_is_planned
