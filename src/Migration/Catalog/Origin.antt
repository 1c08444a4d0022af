-- ===== src/Migration/Catalog/Origin.antt =====
-- What holds of every script that is added holds of the scripts of the catalog.
use babar.Prelude.{
  ◌≡◌, refl, List, [], ◌∷◌, Option, none, some, true, false, ◌&&◌, ok, ok-injective, >>=-eq-ok,
  map_ok, if◌then◌else◌, arith, All, sym, ap, ◌∙◌, subst, if-cases, ite-cases, inl, inr,
}
use babar.Migration.Errors.{Text}
use babar.Migration.Filename.{MigrationId, MigrationId-discrete, up, down, MigrationKind, leb_id}
use babar.Migration.Model.{MigrationScript, MigrationPair, new_pair, is_up, is_down}
use mathlib.Core.Logic.{ite}
use babar.Migration.Catalog.{
  PairBuilder, new_builder, fill_slot, slot_script, insert_script, insert_kind, update_builder,
  finish,
}
use babar.Migration.Catalog.Sorted.{map_ok-eq-ok}

-- An `up` script and a `down` script, both of the pair's identifier.
pub record IsPair (p : MigrationPair) : Type 0 where
  pub up_file : p.up_script.file ≡ record { id = p.id; kind = up }
  pub down_file : p.down_script.file ≡ record { id = p.id; kind = down }

is_pair :
    (u d : MigrationScript) (ku kd : MigrationKind) (i j : MigrationId)
    → u.file ≡ record { id = i; kind = ku }
    → d.file ≡ record { id = j; kind = kd }
    → (is_up ku && is_down kd && ite (MigrationId-discrete i j) true false) ≡ true
    → IsPair (record { id = i; up_script = u; down_script = d })
is_pair u d up down i j hu hd c = record {
  up_file = hu;
  down_file = hd ∙ ap (λ k. record { id = k; kind = down }) (ground (arith, c));
}
is_pair u d up up i j hu hd c = cc
is_pair u d down kd i j hu hd c = cc

new_pair-eq-ok :
    (u d : MigrationScript) {p : MigrationPair}
    → new_pair u d ≡ ok p
    → (record { id = u.file.id; up_script = u; down_script = d } ≡ p)
      × IsPair (record { id = u.file.id; up_script = u; down_script = d })
unfolding new_pair
new_pair-eq-ok u d h =
    elim (if-cases
      (is_up u.file.kind
        && is_down d.file.kind
        && ite (MigrationId-discrete u.file.id d.file.id) true false)
      (ok (record { id = u.file.id; up_script = u; down_script = d })) _ h) [
        | inl (c, e) ↦
            (ok-injective e, is_pair u d u.file.kind d.file.kind u.file.id d.file.id refl refl c)
        | inr (c, e) ↦ cc
      ]

module _ (Q : MigrationId → MigrationScript → Type 0) where
  abbrev IsSlotOf : MigrationId → Option (MigrationScript × Text) → Type 0
  IsSlotOf id none = Unit
  IsSlotOf id (some (s, path)) = Q id s

  abbrev pub IsBuilderOf : PairBuilder → Type 0
  IsBuilderOf b = IsSlotOf b.id b.up_slot × IsSlotOf b.id b.down_slot

  fill_slot-IsSlotOf :
      (id : MigrationId) (k : MigrationKind) (o : Option (MigrationScript × Text))
      (s : MigrationScript) (path : Text) {o' : Option (MigrationScript × Text)}
      → Q id s
      → fill_slot id k o s path ≡ ok o'
      → IsSlotOf id o'
  fill_slot-IsSlotOf id k none s path q e = subst (IsSlotOf id) (ok-injective e) q
  fill_slot-IsSlotOf id k (some (t, old)) s path q e = cc

  insert_kind-IsBuilderOf :
      (b : PairBuilder) (s : MigrationScript) (path : Text) (k : MigrationKind) {b' : PairBuilder}
      → IsBuilderOf b
      → Q b.id s
      → insert_kind b s path k ≡ ok b'
      → IsBuilderOf b'
  insert_kind-IsBuilderOf b s path up (u, d) q e =
      let (o, z, r) =
        map_ok-eq-ok (λ slot. record b { up_slot = slot }) (fill_slot b.id up b.up_slot s path) e in
      subst IsBuilderOf r (fill_slot-IsSlotOf b.id up b.up_slot s path q z, d)
  insert_kind-IsBuilderOf b s path down (u, d) q e =
      let (o, z, r) =
        map_ok-eq-ok (λ slot. record b { down_slot = slot })
          (fill_slot b.id down b.down_slot s path) e in
      subst IsBuilderOf r (u, fill_slot-IsSlotOf b.id down b.down_slot s path q z)

  insert_script-IsBuilderOf :
      (b : PairBuilder) (s : MigrationScript) (path : Text) {b' : PairBuilder}
      → IsBuilderOf b
      → Q b.id s
      → insert_script b s path ≡ ok b'
      → IsBuilderOf b'
  unfolding insert_script
  insert_script-IsBuilderOf b s path h q e = insert_kind-IsBuilderOf b s path s.file.kind h q e

  front-IsBuilderOf :
      (rest : List PairBuilder) (b : PairBuilder) (s : MigrationScript) (path : Text)
      {bs' : List PairBuilder}
      → IsBuilderOf b
      → Q b.id s
      → All IsBuilderOf rest
      → map_ok (λ x. x ∷ rest) (insert_script b s path) ≡ ok bs'
      → All IsBuilderOf bs'
  front-IsBuilderOf rest b s path h q hs e =
      let (x, z, r) = map_ok-eq-ok (λ (x : PairBuilder). x ∷ rest) (insert_script b s path) e in
      subst (All IsBuilderOf) r (insert_script-IsBuilderOf b s path h q z, hs)

  pub update_builder-IsBuilderOf :
      (bs : List PairBuilder) (id : MigrationId) (s : MigrationScript) (path : Text)
      {bs' : List PairBuilder}
      → All IsBuilderOf bs
      → Q id s
      → update_builder bs id s path ≡ ok bs'
      → All IsBuilderOf bs'
  unfolding update_builder
  update_builder-IsBuilderOf [] id s path h q e =
      front-IsBuilderOf [] (new_builder id) s path (tt, tt) q tt e
  update_builder-IsBuilderOf (b ∷ bs) id s path (hb, h) q e =
      let later = map_ok (λ rest. b ∷ rest) (update_builder bs id s path) in
      let before = map_ok (λ x. x ∷ b ∷ bs) (insert_script (new_builder id) s path) in
      elim (ite-cases (MigrationId-discrete b.id id) (map_ok (λ x. x ∷ bs) (insert_script b s path))
        (if leb_id id b.id then before else later) e) [
          | inl (same, z) ↦ front-IsBuilderOf bs b s path hb (subst (λ i. Q i s) (sym same) q) h z
          | inr (different, z) ↦ elim (if-cases (leb_id id b.id) before later z) [
            | inl (t, y) ↦ front-IsBuilderOf (b ∷ bs) (new_builder id) s path (tt, tt) q (hb, h) y
            | inr (f, y) ↦
                (let (rest, w, r) =
                    map_ok-eq-ok (λ (rest : List PairBuilder). b ∷ rest)
                      (update_builder bs id s path) y in
                  subst (All IsBuilderOf) r (hb, update_builder-IsBuilderOf bs id s path h q w))
          ]
        ]

  slot_script-eq-ok :
      (id : MigrationId) (k : MigrationKind) (o : Option (MigrationScript × Text))
      {s : MigrationScript}
      → IsSlotOf id o
      → slot_script id k o ≡ ok s
      → Q id s
  slot_script-eq-ok id k none h e = cc
  slot_script-eq-ok id k (some (s, path)) h e = subst (Q id) (ok-injective e) h

  pub finish-IsBuilderOf :
      (b : PairBuilder) {p : MigrationPair}
      → IsBuilderOf b
      → finish b ≡ ok p
      → Q b.id p.up_script × Q b.id p.down_script × IsPair p
  unfolding finish
  finish-IsBuilderOf b {p = p} (hu, hd) e =
      let (u, eu, e1) = >>=-eq-ok (slot_script b.id up b.up_slot) _ e in
      let (d, ed, e2) = >>=-eq-ok (slot_script b.id down b.down_slot) _ e1 in
      let (r, w) = new_pair-eq-ok u d e2 in
      (
        subst (λ (x : MigrationPair). Q b.id x.up_script) r
            (slot_script-eq-ok b.id up b.up_slot hu eu),
        subst (λ (x : MigrationPair). Q b.id x.down_script) r
            (slot_script-eq-ok b.id down b.down_slot hd ed),
        subst IsPair r w,
      )
