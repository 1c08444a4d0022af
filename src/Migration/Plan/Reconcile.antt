-- ===== src/Migration/Plan/Reconcile.antt =====
-- When an applied history is accepted.
use babar.Prelude.{
  ℕ, zero, suc, ◌≡◌, ◌≢◌, ◌↔◌, refl, ◌⊎◌, inl, inr, List, [], ◌∷◌, map, Option, none, some, false,
  Result, ok, err, ◌>>◌, get_elem?, drop, arith, sym, ◌∙◌, subst, Bool-cases,
}
use babar.Rust.{ascii}
use babar.Migration.Errors.{MigrationError}
use babar.Migration.Filename.{MigrationId, leb_id}
use babar.Migration.Model.{MigrationPair, AppliedMigration}
use babar.Migration.Plan.{
  verify_drift, reconcile_row, reconcile_loop, reconcile, after_previous, same_id, same_checksum,
  same_mode,
}

-- The row is what applying the pair leaves in the state table.
pub record IsRowOf (p : MigrationPair) (a : AppliedMigration) : Type 0 where
  pub ids : p.id ≡ a.id
  pub up_checksums : a.up_checksum ≡ p.up_script.checksum
  pub down_checksums : a.down_checksum ≡ p.down_script.checksum
  pub up_modes : a.up_transaction_mode ≡ p.up_script.metadata.transaction_mode
  pub down_modes : a.down_transaction_mode ≡ p.down_script.metadata.transaction_mode

-- The rows are those of the first pairs, one by one.
abbrev pub AreRowsOf : List MigrationPair → List AppliedMigration → Type 0
AreRowsOf pairs [] = Unit
AreRowsOf [] (a ∷ rows) = ⊥
AreRowsOf (p ∷ pairs) (a ∷ rows) = IsRowOf p a × AreRowsOf pairs rows

-- Strictly ascending identifiers, all above `previous`.
abbrev pub IsAscending : Option MigrationId → List MigrationId → Type 0
IsAscending previous [] = Unit
IsAscending none (i ∷ ids) = IsAscending (some i) ids
IsAscending (some previous) (i ∷ ids) = (leb_id i previous ≡ false) × IsAscending (some i) ids

>>-eq-ok :
    {A : Type 0} (r : Result MigrationError (Unit {0})) (after : Result MigrationError A) {x : A}
    → (r >> after) ≡ ok x
    → (r ≡ ok tt) × (after ≡ ok x)
>>-eq-ok (err e) after h = cc
>>-eq-ok (ok tt) after h = (refl, h)

verify_drift-IsRowOf :
    (a : AppliedMigration) (p : MigrationPair)
    → p.id ≡ a.id
    → verify_drift a p ≡ ok tt
    → IsRowOf p a
unfolding verify_drift
verify_drift-IsRowOf a p i h =
    let (u, h1) =
      >>-eq-ok (same_checksum a.id (ascii "up checksum") a.up_checksum p.up_script.checksum) _ h in
    let (d, h2) =
      >>-eq-ok (same_checksum a.id (ascii "down checksum") a.down_checksum p.down_script.checksum) _
        h1 in
    let (um, dm) =
      >>-eq-ok
        (same_mode a.id (ascii "up transaction mode") a.up_transaction_mode
          p.up_script.metadata.transaction_mode)
        (same_mode a.id (ascii "down transaction mode") a.down_transaction_mode
          p.down_script.metadata.transaction_mode)
        h2 in
    record {
      ids = i;
      up_checksums = ground (arith, u);
      down_checksums = ground (arith, d);
      up_modes = ground (arith, um);
      down_modes = ground (arith, dm);
    }

verify_drift_lem :
    (a : AppliedMigration) (p : MigrationPair) → IsRowOf p a → verify_drift a p ≡ ok tt
unfolding verify_drift
verify_drift_lem a p r = ground (arith, r.up_checksums, r.down_checksums, r.up_modes, r.down_modes)

module _ {ℓ} {A : Type ℓ} where
  -- The element at an index is where the rest of the list begins.
  pub drop-cases :
      (i : ℕ) (xs : List A)
      → ((get_elem? xs i ≡ none) × (drop i xs ≡ []))
        ⊎ ((x : A) × (get_elem? xs i ≡ some x) × (drop i xs ≡ x ∷ drop (suc i) xs))
  drop-cases zero [] = inl (refl, refl)
  drop-cases zero (x ∷ xs) = inr (x, refl, refl)
  drop-cases (suc i) [] = inl (refl, refl)
  drop-cases (suc i) (x ∷ xs) = drop-cases i xs

after_previous_lem :
    (previous : Option MigrationId) (i : MigrationId) (ids : List MigrationId)
    → ((after_previous previous i ≡ ok tt) × IsAscending (some i) ids)
      ↔ IsAscending previous (i ∷ ids)
after_previous_lem none i ids = (λ h. h.1, λ h. (refl, h))
after_previous_lem (some q) i ids = elim (Bool-cases (leb_id i q)) [
  | inl below ↦ ground (arith, below)
  | inr above ↦ ground (arith, above)
]

row_found :
    (pairs : List MigrationPair) (previous : Option MigrationId) (index : ℕ) (a : AppliedMigration)
    (p : MigrationPair)
    → get_elem? pairs index ≡ some p
    → reconcile_row pairs previous index a
      ≡ (after_previous previous a.id >> (same_id p.id a.id >> verify_drift a p))
unfolding reconcile_row
row_found pairs previous index a p g = rw g

row_found_iff :
    (pairs : List MigrationPair) (previous : Option MigrationId) (index : ℕ) (a : AppliedMigration)
    (p : MigrationPair)
    → get_elem? pairs index ≡ some p
    → (reconcile_row pairs previous index a ≡ ok tt)
      ↔ ((after_previous previous a.id ≡ ok tt) × IsRowOf p a)
row_found_iff pairs previous index a p g = (
  λ h.
      (let (x, h1) =
          >>-eq-ok (after_previous previous a.id) (same_id p.id a.id >> verify_drift a p)
            (sym (row_found pairs previous index a p g) ∙ h) in
        let (y, h2) = >>-eq-ok (same_id p.id a.id) (verify_drift a p) h1 in
        (x, verify_drift-IsRowOf a p (ground (arith, y)) h2)),
  λ h.
      row_found pairs previous index a p g
      ∙ rw (h.0, verify_drift_lem a p h.1) (ground (arith, h.1.ids)),
)

row_missing :
    (pairs : List MigrationPair) (previous : Option MigrationId) (index : ℕ) (a : AppliedMigration)
    → get_elem? pairs index ≡ none
    → reconcile_row pairs previous index a ≢ ok tt
unfolding reconcile_row
row_missing pairs previous index a g h =
    let (x, h1) = >>-eq-ok (after_previous previous a.id) _ h in ground (arith, g, h1)

reconcile_loop_iff :
    (pairs : List MigrationPair) (previous : Option MigrationId) (index : ℕ)
    (rows : List AppliedMigration)
    → (reconcile_loop pairs previous index rows ≡ ok tt) ↔ (
        IsAscending previous (map (λ (a : AppliedMigration). a.id) rows)
        × AreRowsOf (drop index pairs) rows)
unfolding reconcile_loop
reconcile_loop_iff pairs previous index [] = (λ h. (tt, tt), λ h. refl)
reconcile_loop_iff pairs previous index (a ∷ rows) =
    let later = reconcile_loop_iff pairs (some a.id) (suc index) rows in
    let order = after_previous_lem previous a.id (map (λ (x : AppliedMigration). x.id) rows) in
    elim (drop-cases index pairs) [
      | inl (g, d) ↦ (
        λ h. absurd (
            row_missing pairs previous index a g
              (>>-eq-ok (reconcile_row pairs previous index a) _ h).0),
        λ h. absurd (subst (λ ps. AreRowsOf ps (a ∷ rows)) d h.1),
      )
      | inr (p, g, d) ↦ (
        λ h.
            (let (x, h1) =
                >>-eq-ok (reconcile_row pairs previous index a)
                  (reconcile_loop pairs (some a.id) (suc index) rows) h in
              let (y, r) = (row_found_iff pairs previous index a p g).0 x in
              let (o, m) = later.0 h1 in
              (order.0 (y, o), subst (λ ps. AreRowsOf ps (a ∷ rows)) (sym d) (r, m))),
        λ h.
            (let (y, o) = order.1 h.0 in
              let (r, m) = subst (λ ps. AreRowsOf ps (a ∷ rows)) d h.1 in
              rw ((row_found_iff pairs previous index a p g).1 (y, r)) (later.1 (o, m))),
      )
    ]

-- The applied history is accepted, and handed on as it is, exactly if its identifiers ascend strictly
-- and its rows are those of the first migrations on disk, one by one: the same identifiers, checksums
-- and transaction modes.
pub reconcile_iff :
    (pairs : List MigrationPair) (applied : List AppliedMigration)
    → (reconcile pairs applied ≡ ok applied)
      ↔ (IsAscending none (map (λ (a : AppliedMigration). a.id) applied) × AreRowsOf pairs applied)
unfolding reconcile
reconcile_iff pairs applied = (
  λ h.
      (reconcile_loop_iff pairs none 0 applied).0
        (>>-eq-ok (reconcile_loop pairs none 0 applied) (ok applied) h).0,
  λ h. rw ((reconcile_loop_iff pairs none 0 applied).1 h),
)

-- Nothing else comes out of `reconcile`.
pub reconcile_same :
    (pairs : List MigrationPair) (applied : List AppliedMigration) {rows : List AppliedMigration}
    → reconcile pairs applied ≡ ok rows
    → rows ≡ applied
unfolding reconcile
reconcile_same pairs applied h =
    let (x, e) = >>-eq-ok (reconcile_loop pairs none 0 applied) (ok applied) h in cc
