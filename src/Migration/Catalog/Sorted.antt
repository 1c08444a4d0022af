-- ===== src/Migration/Catalog/Sorted.antt =====
-- The catalog that is built from files is in the order of its versions.
use babar.Prelude.{
  ℕ, suc, ◌<◌, ◌≤◌, ◌≡◌, ◌≢◌, refl, List, [], ◌∷◌, Option, none, some, true, false, Result, ok, err,
  ok-injective, map_ok, if◌then◌else◌, arith, All, sym, ap, ◌∙◌, subst, if-cases, ite-cases, inl,
  inr, some-injective,
}
use babar.Prelude.Assoc.{lookup, insert, lookup-insert, lookup-insert_self}
use babar.Migration.Errors.{Text, MigrationError, conflicting_migration_version}
use babar.Migration.Filename.{
  MigrationId, MigrationId-discrete, up, down, MigrationKind, leb_id, Text-discrete,
}
use babar.Migration.Model.{MigrationScript}
use babar.Migration.Catalog.{
  PairBuilder, new_builder, insert_script, insert_kind, update_builder, claim_version,
}
use native.Mathlib.Decide.{ℕ_discrete}

-- The versions ascend strictly from `lo` on.
abbrev pub IsSortedFrom : ℕ → List PairBuilder → Type 0
IsSortedFrom lo [] = Unit
IsSortedFrom lo (b ∷ bs) = (lo ≤ b.id.version) × IsSortedFrom (suc b.id.version) bs

-- Each builder's name is the one that its version was claimed for.
abbrev pub IsClaimed : List (ℕ × Text) → List PairBuilder → Type 0
IsClaimed versions =
    All (λ (b : PairBuilder). lookup ℕ_discrete b.id.version versions ≡ some b.id.name)

pub map_ok-eq-ok :
    {A B : Type 0} (f : A → B) (r : Result MigrationError A) {y : B}
    → map_ok f r ≡ ok y
    → (x : A) × (r ≡ ok x) × (f x ≡ y)
map_ok-eq-ok f (err e) h = cc
map_ok-eq-ok f (ok x) h = (x, refl, ok-injective h)

insert_kind-id :
    (b : PairBuilder) (s : MigrationScript) (path : Text) (k : MigrationKind) {b' : PairBuilder}
    → insert_kind b s path k ≡ ok b'
    → b'.id ≡ b.id
insert_kind-id b s path up h =
    let (slot, e, q) = map_ok-eq-ok (λ slot. record b { up_slot = slot }) _ h in
    ap (λ (x : PairBuilder). x.id) (sym q)
insert_kind-id b s path down h =
    let (slot, e, q) = map_ok-eq-ok (λ slot. record b { down_slot = slot }) _ h in
    ap (λ (x : PairBuilder). x.id) (sym q)

pub insert_script-id :
    (b : PairBuilder) (s : MigrationScript) (path : Text) {b' : PairBuilder}
    → insert_script b s path ≡ ok b'
    → b'.id ≡ b.id
unfolding insert_script
insert_script-id b s path h = insert_kind-id b s path s.file.kind h

leb_id-version :
    (a b : MigrationId)
    → a.version ≢ b.version
    → (leb_id a b ≡ true → a.version < b.version) × (leb_id a b ≡ false → b.version < a.version)
unfolding leb_id
leb_id-version a b n = (λ h. ground arith, λ h. ground arith)

same_name : (a b : MigrationId) → a.version ≡ b.version → a.name ≡ b.name → a ≡ b
same_name a b v n = λ i. record { version = v i; name = n i }

-- What the loop keeps.
abbrev pub IsOrdered : ℕ → List (ℕ × Text) → List PairBuilder → Type 0
IsOrdered lo versions bs = IsSortedFrom lo bs × IsClaimed versions bs

-- A builder that keeps its identifier, in front of the others.
front-IsOrdered :
    (lo : ℕ) (versions : List (ℕ × Text)) (rest : List PairBuilder) (i : MigrationId)
    (b : PairBuilder) (s : MigrationScript) (path : Text) {bs' : List PairBuilder}
    → b.id ≡ i
    → lo ≤ i.version
    → lookup ℕ_discrete i.version versions ≡ some i.name
    → IsOrdered (suc i.version) versions rest
    → map_ok (λ x. x ∷ rest) (insert_script b s path) ≡ ok bs'
    → IsOrdered lo versions bs'
front-IsOrdered lo versions rest i b s path same l k (h, c) e =
    let (x, q, r) = map_ok-eq-ok (λ (x : PairBuilder). x ∷ rest) (insert_script b s path) e in
    let j : i ≡ x.id = sym (insert_script-id b s path q ∙ same) in
    subst (IsOrdered lo versions) r (
      (
        subst (λ (v : MigrationId). lo ≤ v.version) j l,
        subst (λ (v : MigrationId). IsSortedFrom (suc v.version) rest) j h,
      ),
      (subst (λ (v : MigrationId). lookup ℕ_discrete v.version versions ≡ some v.name) j k, c),
    )

-- Two claimed identifiers of one version are one.
claimed_once :
    (versions : List (ℕ × Text)) (a b : MigrationId)
    → lookup ℕ_discrete a.version versions ≡ some a.name
    → lookup ℕ_discrete b.version versions ≡ some b.name
    → a ≢ b
    → a.version ≢ b.version
claimed_once versions a b ka kb n v =
    n (same_name a b v (some-injective (sym ka ∙ ap (λ w. lookup ℕ_discrete w versions) v ∙ kb)))

pub update_builder-IsOrdered :
    (lo : ℕ) (versions : List (ℕ × Text)) (bs : List PairBuilder) (id : MigrationId)
    (s : MigrationScript) (path : Text) {bs' : List PairBuilder}
    → IsOrdered lo versions bs
    → lo ≤ id.version
    → lookup ℕ_discrete id.version versions ≡ some id.name
    → update_builder bs id s path ≡ ok bs'
    → IsOrdered lo versions bs'
unfolding update_builder
update_builder-IsOrdered lo versions [] id s path h l k e =
    front-IsOrdered lo versions [] id (new_builder id) s path refl l k (tt, tt) e
update_builder-IsOrdered lo versions (b ∷ bs) id s path ((lb, h), (cb, c)) l k e =
    let later = map_ok (λ rest. b ∷ rest) (update_builder bs id s path) in
    let before = map_ok (λ x. x ∷ b ∷ bs) (insert_script (new_builder id) s path) in
    elim (ite-cases (MigrationId-discrete b.id id) (map_ok (λ x. x ∷ bs) (insert_script b s path))
      (if leb_id id b.id then before else later) e) [
        | inl (same, q) ↦ front-IsOrdered lo versions bs b.id b s path refl lb cb (h, c) q
        | inr (different, q) ↦
            let n = claimed_once versions b.id id cb k different in
            let (below, above) = leb_id-version id b.id (λ v. n (sym v)) in
            elim (if-cases (leb_id id b.id) before later q) [
              | inl (t, q') ↦
                  front-IsOrdered lo versions (b ∷ bs) id (new_builder id) s path refl l k
                    ((omega (arith, below t), h), (cb, c)) q'
              | inr (f, q') ↦
                  (let (rest, z, r) =
                      map_ok-eq-ok (λ (rest : List PairBuilder). b ∷ rest)
                        (update_builder bs id s path) q' in
                    let (h', c') =
                      update_builder-IsOrdered (suc b.id.version) versions bs id s path (h, c)
                        (omega (arith, above f)) k z in
                    subst (IsOrdered lo versions) r ((lb, h'), (cb, c')))
            ]
      ]

-- Claiming a version keeps the claims that the builders rest on.
insert-IsClaimed :
    (versions : List (ℕ × Text)) (v : ℕ) (name : Text) (bs : List PairBuilder)
    → lookup ℕ_discrete v versions ≡ none
    → IsClaimed versions bs
    → IsClaimed (insert ℕ_discrete v name versions) bs
insert-IsClaimed versions v name [] n h = tt
insert-IsClaimed versions v name (b ∷ bs) n (k, h) = (
  ground (arith, lookup-insert ℕ_discrete v b.id.version name versions),
  insert-IsClaimed versions v name bs n h,
)

pub claim_version_lem :
    (versions : List (ℕ × Text)) (id : MigrationId) (o : Option Text) (bs : List PairBuilder)
    {versions' : List (ℕ × Text)}
    → lookup ℕ_discrete id.version versions ≡ o
    → IsClaimed versions bs
    → claim_version versions id o ≡ ok versions'
    → (lookup ℕ_discrete id.version versions' ≡ some id.name) × IsClaimed versions' bs
claim_version_lem versions id none bs n h e =
    subst
      (λ (vs : List (ℕ × Text)). (lookup ℕ_discrete id.version vs ≡ some id.name) × IsClaimed vs bs)
      (ok-injective e)
      (
        lookup-insert_self ℕ_discrete id.version id.name versions,
        insert-IsClaimed versions id.version id.name bs n h,
      )
claim_version_lem versions id (some existing) bs n h e =
    elim (ite-cases (Text-discrete existing id.name) (ok versions)
      (err (conflicting_migration_version id.version existing id.name)) e) [
        | inl (same, q) ↦
            subst
              (λ (vs : List (ℕ × Text)).
                (lookup ℕ_discrete id.version vs ≡ some id.name) × IsClaimed vs bs)
              (ok-injective q) (n ∙ ap some same, h)
        | inr (different, q) ↦ cc
      ]
