-- ===== src/Migration/Plan.antt =====
-- crates/core/src/migration/plan.rs: the applied history is reconciled with the migrations on disk, and
-- plans are made from what it leaves.
pub mod Reconcile
pub mod History
pub mod Applying
pub mod RollingBack
use babar.Prelude.{
  ℕ, suc, ◌+◌, ◌-◌, List, [], ◌∷◌, ◌++◌, map, Option, none, some, Bool, true, false, Result, ok,
  err, ◌>>=◌, ◌>>◌, ok_or, length, get_elem?, take, drop, if◌then◌else◌,
}
use babar.Rust.{ascii}
use babar.Migration.Errors.{
  Text, MigrationError, applied_migration_missing, applied_migration_order_mismatch, drift_detected,
}
use babar.Migration.Checksum.{MigrationChecksum, to_hex}
use babar.Migration.Filename.{
  MigrationId, MigrationId-discrete, Text-discrete, leb_id, id_to_string,
}
use babar.Migration.Model.{
  MigrationPair, AppliedMigration, MigrationTransactionMode, MigrationTransactionMode-discrete,
  as_str,
}
use mathlib.Core.Logic.{ite}

-- "… changed from … to …".
abbrev drift : MigrationId → Text → Text → Text → MigrationError
drift id what from to =
    drift_detected (id_to_string id) (what ++ ascii " changed from " ++ from ++ ascii " to " ++ to)

abbrev same_checksum :
    MigrationId → Text → MigrationChecksum → MigrationChecksum → Result MigrationError (Unit {0})
same_checksum id what a b =
    ite (Text-discrete a b) (ok tt) (err (drift id what (to_hex a) (to_hex b)))

abbrev same_mode :
    MigrationId
    → Text
    → MigrationTransactionMode
    → MigrationTransactionMode
    → Result MigrationError (Unit {0})
same_mode id what a b =
    ite (MigrationTransactionMode-discrete a b) (ok tt) (err (drift id what (as_str a) (as_str b)))

unfoldable pub verify_drift : AppliedMigration → MigrationPair → Result MigrationError (Unit {0})
verify_drift a p = do
  same_checksum a.id (ascii "up checksum") a.up_checksum p.up_script.checksum
  same_checksum a.id (ascii "down checksum") a.down_checksum p.down_script.checksum
  same_mode a.id (ascii "up transaction mode") a.up_transaction_mode
      p.up_script.metadata.transaction_mode
  same_mode a.id (ascii "down transaction mode") a.down_transaction_mode
      p.down_script.metadata.transaction_mode

-- The order of the applied rows is strict.
abbrev after_previous : Option MigrationId → MigrationId → Result MigrationError (Unit {0})
after_previous none current = ok tt
after_previous (some previous) current =
    if leb_id current previous
    then err (
        applied_migration_order_mismatch (ascii "migration after " ++ id_to_string previous)
          (id_to_string current))
    else ok tt

abbrev same_id : MigrationId → MigrationId → Result MigrationError (Unit {0})
same_id expected actual =
    ite (MigrationId-discrete expected actual) (ok tt)
      (err (applied_migration_order_mismatch (id_to_string expected) (id_to_string actual)))

-- One turn of the loop of `reconcile`.
unfoldable pub reconcile_row :
    List MigrationPair
    → Option MigrationId
    → ℕ
    → AppliedMigration
    → Result MigrationError (Unit {0})
reconcile_row pairs previous index a = do
  after_previous previous a.id
  p ← ok_or (get_elem? pairs index) (applied_migration_missing (id_to_string a.id))
  same_id p.id a.id
  verify_drift a p

unfoldable pub reconcile_loop :
    List MigrationPair
    → Option MigrationId
    → ℕ
    → List AppliedMigration
    → Result MigrationError (Unit {0})
reconcile_loop pairs previous index [] = ok tt
reconcile_loop pairs previous index (a ∷ rows) = do
  reconcile_row pairs previous index a
  reconcile_loop pairs (some a.id) (suc index) rows

-- The catalog is its pairs.
unfoldable pub reconcile :
    List MigrationPair → List AppliedMigration → Result MigrationError (List AppliedMigration)
reconcile pairs applied = do reconcile_loop pairs none 0 applied; ok applied

pub data MigrationStatusState : Type 0 where
  applied_row : AppliedMigration → MigrationStatusState
  pending : MigrationStatusState

pub record MigrationStatus : Type 0 where
  pub entries : List (MigrationPair × MigrationStatusState)
  pub applied_count : ℕ

abbrev state_of : Option AppliedMigration → MigrationStatusState
state_of none = pending
state_of (some a) = applied_row a

unfoldable pub status_loop :
    List AppliedMigration → ℕ → List MigrationPair → List (MigrationPair × MigrationStatusState)
status_loop prefix index [] = []
status_loop prefix index (p ∷ pairs) =
    (p, state_of (get_elem? prefix index)) ∷ status_loop prefix (suc index) pairs

unfoldable pub status :
    List MigrationPair → List AppliedMigration → Result MigrationError MigrationStatus
status pairs applied = do
  prefix ← reconcile pairs applied
  ok (record { entries = status_loop prefix 0 pairs; applied_count = length applied })

abbrev pub pending_count : MigrationStatus → ℕ
pending_count s = length s.entries - s.applied_count

pub data MigrationPlanDirection : Type 0 where
  applying rolling_back : MigrationPlanDirection

pub data MigrationPlanStep : Type 0 where
  apply : MigrationPair → MigrationPlanStep
  rollback : MigrationPair → AppliedMigration → MigrationPlanStep

pub record MigrationPlan : Type 0 where
  pub direction : MigrationPlanDirection
  pub steps : List MigrationPlanStep

unfoldable pub plan_apply :
    List MigrationPair → List AppliedMigration → Result MigrationError MigrationPlan
plan_apply pairs applied = do
  prefix ← reconcile pairs applied
  ok (record { direction = applying; steps = map apply (drop (length prefix) pairs) })

-- `.enumerate().rev()`, behind the rows that come after these. The index is in range.
abbrev rollback_step :
    Option MigrationPair → AppliedMigration → List MigrationPlanStep → List MigrationPlanStep
rollback_step none a steps = steps
rollback_step (some p) a steps = rollback p a ∷ steps

unfoldable pub rollback_steps :
    List MigrationPair → ℕ → List AppliedMigration → List MigrationPlanStep → List MigrationPlanStep
rollback_steps pairs index [] later = later
rollback_steps pairs index (a ∷ rows) later =
    rollback_steps pairs (suc index) rows (rollback_step (get_elem? pairs index) a later)

unfoldable pub plan_rollback :
    List MigrationPair → List AppliedMigration → ℕ → Result MigrationError MigrationPlan
plan_rollback pairs applied steps = do
  prefix ← reconcile pairs applied
  ok (record { direction = rolling_back; steps = take steps (rollback_steps pairs 0 prefix []) })
