-- ===== src/Migration/Catalog/Built.antt =====
-- The catalog that `from_assets` builds.
use babar.Prelude.{
  ℕ, suc, ◌≤◌, ◌≡◌, refl, List, [], ◌∷◌, ok, ok-injective, >>=-eq-ok, arith, All, sym, ap, ◌∙◌,
  subst,
}
use mathlib.Core.List.{Memᴰ}
use babar.Prelude.Assoc.{lookup}
use babar.Migration.Errors.{Text}
use babar.Migration.Checksum.{MigrationChecksum}
use babar.Migration.Filename.{MigrationId, MigrationFilename}
use babar.Migration.Model.{MigrationScript, MigrationPair}
use babar.Migration.Catalog.{
  MigrationAsset, PairBuilder, parse_asset, claim_version, update_builder, finish, finish_all,
  add_asset, add_assets, from_assets,
}
use babar.Migration.Catalog.Sorted.{
  IsSortedFrom, IsOrdered, claim_version_lem, update_builder-IsOrdered,
}
use babar.Migration.Catalog.Origin.{
  IsPair, IsBuilderOf, update_builder-IsBuilderOf, finish-IsBuilderOf,
}
use babar.Migration.Plan.History.{IsCatalog}
use native.Mathlib.Decide.{ℕ_discrete}

module _ (sha256 : Text → MigrationChecksum) (assets : List MigrationAsset) where
  -- The script is parsed from one of the assets.
  abbrev pub IsParsed : MigrationScript → Type 0
  IsParsed s = (a : MigrationAsset) × Memᴰ a assets × (parse_asset sha256 a ≡ ok s)

  abbrev IsScriptOf : MigrationId → MigrationScript → Type 0
  IsScriptOf id s = (s.file.id ≡ id) × IsParsed s

  abbrev IsGood : List (ℕ × Text) × List PairBuilder → Type 0
  IsGood (versions, builders) =
      IsOrdered 0 versions builders × All (IsBuilderOf IsScriptOf) builders

  add_asset-IsGood :
      (state : List (ℕ × Text) × List PairBuilder) (a : MigrationAsset)
      {state' : List (ℕ × Text) × List PairBuilder}
      → Memᴰ a assets
      → IsGood state
      → add_asset sha256 state a ≡ ok state'
      → IsGood state'
  unfolding add_asset
  add_asset-IsGood (versions, builders) a m ((sorted, claimed), built) e =
      let (s, es, e1) = >>=-eq-ok (parse_asset sha256 a) _ e in
      let id = s.file.id in
      let (versions', ev, e2) =
        >>=-eq-ok (claim_version versions id (lookup ℕ_discrete id.version versions)) _ e1 in
      let (builders', eb, e3) = >>=-eq-ok (update_builder builders id s a.path) _ e2 in
      let (k, claimed') =
        claim_version_lem versions id (lookup ℕ_discrete id.version versions) builders refl claimed
          ev in
      subst IsGood (ok-injective e3) (
        update_builder-IsOrdered 0 versions' builders id s a.path (sorted, claimed') (omega arith) k
            eb,
        update_builder-IsBuilderOf IsScriptOf builders id s a.path built (refl, (a, m, es)) eb,
      )

  add_assets-IsGood :
      (state : List (ℕ × Text) × List PairBuilder) (rest : List MigrationAsset)
      {state' : List (ℕ × Text) × List PairBuilder}
      → ((a : MigrationAsset) → Memᴰ a rest → Memᴰ a assets)
      → IsGood state
      → add_assets sha256 state rest ≡ ok state'
      → IsGood state'
  unfolding add_assets
  add_assets-IsGood state [] m g e = subst IsGood (ok-injective e) g
  add_assets-IsGood state (a ∷ rest) m g e =
      let (next, ea, e1) = >>=-eq-ok (add_asset sha256 state a) _ e in
      add_assets-IsGood next rest (λ x h. m x (Memᴰ.tail h))
        (add_asset-IsGood state a (m a (Memᴰ.head refl)) g ea) e1

  -- A pair of the catalog: its two scripts have its identifier and their directions, and each is parsed
  -- from an asset.
  abbrev pub IsBuilt : MigrationPair → Type 0
  IsBuilt p = IsPair p × IsParsed p.up_script × IsParsed p.down_script

  abbrev IsPairsFrom : ℕ → List MigrationPair → Type 0
  IsPairsFrom lo [] = Unit
  IsPairsFrom lo (p ∷ ps) = (lo ≤ p.id.version) × IsPairsFrom (suc p.id.version) ps

  IsPairsFrom-IsCatalog : (lo : ℕ) (ps : List MigrationPair) → IsPairsFrom lo ps → IsCatalog ps
  IsPairsFrom-IsCatalog lo [] h = tt
  IsPairsFrom-IsCatalog lo (p ∷ []) h = tt
  IsPairsFrom-IsCatalog lo (p ∷ q ∷ ps) (l, (k, h)) =
      (omega arith, IsPairsFrom-IsCatalog (suc p.id.version) (q ∷ ps) (k, h))

  finish_all-IsBuilt :
      (lo : ℕ) (bs : List PairBuilder) {ps : List MigrationPair}
      → IsSortedFrom lo bs
      → All (IsBuilderOf IsScriptOf) bs
      → finish_all bs ≡ ok ps
      → IsPairsFrom lo ps × All IsBuilt ps
  unfolding finish_all
  finish_all-IsBuilt lo [] h hs e =
      subst (λ ps. IsPairsFrom lo ps × All IsBuilt ps) (ok-injective e) (tt, tt)
  finish_all-IsBuilt lo (b ∷ bs) (l, h) (hb, hs) e =
      let (p, ep, e1) = >>=-eq-ok (finish b) _ e in
      let (ps, eps, e2) = >>=-eq-ok (finish_all bs) _ e1 in
      let ((iu, fu), (id, fd), w) = finish-IsBuilderOf IsScriptOf b hb ep in
      let (rest, built) = finish_all-IsBuilt (suc b.id.version) bs h hs eps in
      let same : b.id ≡ p.id = sym iu ∙ ap (λ (f : MigrationFilename). f.id) w.up_file in
      subst (λ ps. IsPairsFrom lo ps × All IsBuilt ps) (ok-injective e2)
        (
          (
            subst (λ (i : MigrationId). lo ≤ i.version) same l,
            subst (λ (i : MigrationId). IsPairsFrom (suc i.version) ps) same rest,
          ),
          ((w, fu, fd), built),
        )

-- If files make a catalog, its versions ascend strictly, and each of its pairs has an `up` and a `down`
-- script of its own identifier, both parsed from files among those that were given.
pub from_assets-IsCatalog :
    (sha256 : Text → MigrationChecksum) (assets : List MigrationAsset) {pairs : List MigrationPair}
    → from_assets sha256 assets ≡ ok pairs
    → IsCatalog pairs × All (IsBuilt sha256 assets) pairs
unfolding from_assets
from_assets-IsCatalog sha256 assets e =
    let ((versions, builders), ea, e1) = >>=-eq-ok (add_assets sha256 ([], []) assets) _ e in
    let ((sorted, claimed), built) =
      add_assets-IsGood sha256 assets ([], []) assets (λ a h. h) ((tt, tt), tt) ea in
    let (from, made) = finish_all-IsBuilt sha256 assets 0 builders sorted built e1 in
    (IsPairsFrom-IsCatalog sha256 assets 0 _ from, made)
