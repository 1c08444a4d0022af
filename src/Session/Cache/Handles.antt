-- ===== src/Session/Cache/Handles.antt =====
-- Counting handles.
use babar.Prelude.{
  ℕ, suc, ◌+◌, ◌-◌, ◌≡◌, ◌≢◌, refl, List, [], ◌∷◌, Option, none, some, Bool, true, false,
  if◌then◌else◌, arith, lt→ltb, ◌∙◌, ap,
}
use babar.Prelude.Assoc.{
  remove, lookup-insert, lookup-remove, lookup-insert_self, lookup-remove_self,
}
use babar.Session.Cache.{
  CacheKey, CacheKey-discrete, CachedStatement, CacheEntry, StatementCache, entry, checkout,
  insert_statement, release_handle, checkout_found, release_found, put_entry,
}

-- A checkout and a release of the entry that is there.
pub checkout_lem :
    (c : StatementCache) (key : CacheKey) (e : CacheEntry)
    → entry c key ≡ some e
    → checkout c key ≡ (put_entry c key (record e { handles = e.handles + 1 }), some e.stmt)
unfolding checkout
checkout_lem c key e h = ap (checkout_found c key) h

release_handle_lem :
    (c : StatementCache) (key : CacheKey) (e : CacheEntry)
    → entry c key ≡ some e
    → release_handle c key ≡ release_found c key (some e)
unfolding release_handle
release_handle_lem c key e h = ap (release_found c key) h

-- What the holders of one statement do.
pub data HandleOp : Type 0 where
  check_out release : HandleOp

abbrev pub apply_op : StatementCache → CacheKey → HandleOp → StatementCache
apply_op c key check_out = (checkout c key).0
apply_op c key release = (release_handle c key).0

pub apply_ops : StatementCache → CacheKey → List HandleOp → StatementCache
apply_ops c key [] = c
apply_ops c key (o ∷ ops) = apply_ops (apply_op c key o) key ops

more_left :
    (c : StatementCache) (key : CacheKey) (s : CachedStatement) (h : ℕ)
    → (release_found c key (some (record { stmt = s; handles = suc (suc h) }))).0
      ≡ put_entry c key (record { stmt = s; handles = suc h })
more_left c key s h =
    let e : suc (suc h) - 1 ≡ suc h = omega arith in rw (lt→ltb 1 (suc (suc h)) (omega arith), e)

pub release_more :
    (c : StatementCache) (key : CacheKey) (s : CachedStatement) (h : ℕ)
    → entry c key ≡ some (record { stmt = s; handles = suc (suc h) })
    → apply_op c key release ≡ put_entry c key (record { stmt = s; handles = suc h })
release_more c key s h e =
    ap (λ (x : StatementCache × Option CachedStatement). x.0) (release_handle_lem c key _ e)
    ∙ more_left c key s h

pub put_entry-entry_ne :
    (c : StatementCache) (key j : CacheKey) (e : CacheEntry)
    → key ≢ j
    → entry (put_entry c key e) j ≡ entry c j
put_entry-entry_ne c key j e n = ground (arith, lookup-insert CacheKey-discrete key j e c.stmts)

checkout_found-entry_ne :
    (c : StatementCache) (key j : CacheKey) (o : Option CacheEntry)
    → key ≢ j
    → entry (checkout_found c key o).0 j ≡ entry c j
checkout_found-entry_ne c key j none n = refl
checkout_found-entry_ne c key j (some e) n = put_entry-entry_ne c key j _ n

release_found-entry_ne :
    (c : StatementCache) (key j : CacheKey) (o : Option CacheEntry)
    → key ≢ j
    → entry (release_found c key o).0 j ≡ entry c j
release_found-entry_ne c key j none n = refl
release_found-entry_ne c key j (some e) n = ground (
  arith,
  put_entry-entry_ne c key j (record e { handles = e.handles - 1 }) n,
  put_entry-entry_ne c key j (record e { handles = 0 }) n,
  lookup-remove CacheKey-discrete key j c.stmts,
)

pub checkout-entry_ne :
    (c : StatementCache) (key j : CacheKey) → key ≢ j → entry (checkout c key).0 j ≡ entry c j
unfolding checkout
checkout-entry_ne c key j n = checkout_found-entry_ne c key j (entry c key) n

pub release_handle-entry_ne :
    (c : StatementCache) (key j : CacheKey) → key ≢ j → entry (release_handle c key).0 j ≡ entry c j
unfolding release_handle
release_handle-entry_ne c key j n = release_found-entry_ne c key j (entry c key) n

apply_ops-entry_ne :
    (c : StatementCache) (key j : CacheKey) (ops : List HandleOp)
    → key ≢ j
    → entry (apply_ops c key ops) j ≡ entry c j
unfolding apply_ops
apply_ops-entry_ne c key j [] n = refl
apply_ops-entry_ne c key j (check_out ∷ ops) n =
    apply_ops-entry_ne (apply_op c key check_out) key j ops n ∙ checkout-entry_ne c key j n
apply_ops-entry_ne c key j (release ∷ ops) n =
    apply_ops-entry_ne (apply_op c key release) key j ops n ∙ release_handle-entry_ne c key j n

pub insert_statement-entry :
    (c : StatementCache) (key : CacheKey) (s : CachedStatement)
    → (entry (insert_statement c key s) key ≡ some (record { stmt = s; handles = 1 }))
      × ((insert_statement c key s).retain_on_zero_handles ≡ c.retain_on_zero_handles)
unfolding insert_statement
insert_statement-entry c key s = (lookup-insert_self CacheKey-discrete key _ c.stmts, refl)

last_found :
    (c : StatementCache) (key : CacheKey) (s : CachedStatement) (retain : Bool)
    → let r : StatementCache × Option CachedStatement =
        if retain
        then (put_entry c key (record { stmt = s; handles = 0 }), none)
        else (record c { stmts = remove CacheKey-discrete key c.stmts }, some s) in
      (r.1 ≡ (if retain then none else some s))
      × (entry r.0 key ≡ (if retain then some (record { stmt = s; handles = 0 }) else none))
last_found c key s true = (refl, lookup-insert_self CacheKey-discrete key _ c.stmts)
last_found c key s false = (refl, lookup-remove_self CacheKey-discrete key c.stmts)

pub release_last :
    (c : StatementCache) (key : CacheKey) (s : CachedStatement)
    → entry c key ≡ some (record { stmt = s; handles = 1 })
    → let (c', r) = release_handle c key in
      (r ≡ (if c.retain_on_zero_handles then none else some s))
      × (entry c' key
          ≡ (if c.retain_on_zero_handles then some (record { stmt = s; handles = 0 }) else none))
release_last c key s e =
    let q = release_handle_lem c key _ e in
    let (a, z) = last_found c key s c.retain_on_zero_handles in
    (
      ap (λ (x : StatementCache × Option CachedStatement). x.1) q ∙ a,
      ap (λ (x : StatementCache × Option CachedStatement). entry x.0 key) q ∙ z,
    )

-- What the holders of one statement do leaves every other statement's entry as it was.
statement_isolation :
    (c : StatementCache) (key j : CacheKey) (s : CachedStatement) (ops : List HandleOp)
    → key ≢ j
    → entry (apply_ops (insert_statement c key s) key ops) j ≡ entry c j
statement_isolation c key j s ops n =
    apply_ops-entry_ne (insert_statement c key s) key j ops n
    ∙ unfold insert_statement in put_entry-entry_ne c key j _ n
