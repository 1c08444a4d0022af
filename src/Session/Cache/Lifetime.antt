-- ===== src/Session/Cache/Lifetime.antt =====
-- How long a prepared statement stays in the cache.
use babar.Prelude.{
  ℕ, zero, suc, ◌+◌, ◌≡◌, ◌≢◌, refl, List, [], ◌∷◌, Option, none, some, if◌then◌else◌, arith, ◌∙◌,
  ap, some-injective, subst, sym, Option-cases, inl, inr,
}
use babar.Prelude.Assoc.{lookup-insert_self}
use babar.Session.Cache.{
  CacheKey, CacheKey-discrete, CachedStatement, CacheEntry, StatementCache, entry, checkout,
  insert_statement, release_handle, checkout_found, release_found, next_name,
}
use babar.Session.Cache.Handles.{
  checkout_lem, release_more, put_entry-entry_ne, checkout-entry_ne, release_handle-entry_ne,
  insert_statement-entry, release_last,
}
use babar.Session.Cache.Names.{
  CacheOp, checks_out, releases, inserts, names, apply_cache_op, apply_cache_ops,
}

-- The live handles of a key after an operation on any key, none if the last of them is released or the key
-- is inserted again.
abbrev released_one : ℕ → Option ℕ
released_one zero = none
released_one (suc zero) = none
released_one (suc (suc h)) = some (suc h)

abbrev pub handles_after : CacheKey → ℕ → CacheOp → Option ℕ
handles_after key h (checks_out k) = elim (CacheKey-discrete k key) [
  | yes p ↦ some (h + 1)
  | no n ↦ some h
]
handles_after key h (releases k) = elim (CacheKey-discrete k key) [
  | yes p ↦ released_one h
  | no n ↦ some h
]
handles_after key h (inserts k s) = elim (CacheKey-discrete k key) [ yes p ↦ none | no n ↦ some h ]
handles_after key h names = some h

abbrev then_handles : Option ℕ → (ℕ → Option ℕ) → Option ℕ
then_handles none k = none
then_handles (some h) k = k h

abbrev pub live_handles : CacheKey → ℕ → List CacheOp → Option ℕ
live_handles key h [] = some h
live_handles key h (o ∷ ops) = then_handles (handles_after key h o) (λ n. live_handles key n ops)

checkout_found-retain :
    (c : StatementCache) (key : CacheKey) (o : Option CacheEntry)
    → (checkout_found c key o).0.retain_on_zero_handles ≡ c.retain_on_zero_handles
checkout_found-retain c key none = refl
checkout_found-retain c key (some e) = refl

release_found-retain :
    (c : StatementCache) (key : CacheKey) (o : Option CacheEntry)
    → (release_found c key o).0.retain_on_zero_handles ≡ c.retain_on_zero_handles
release_found-retain c key none = refl
release_found-retain c key (some e) = ground arith

-- No operation changes whether the cache retains statements.
apply_cache_op-retain :
    (c : StatementCache) (o : CacheOp)
    → (apply_cache_op c o).retain_on_zero_handles ≡ c.retain_on_zero_handles
unfolding checkout release_handle insert_statement next_name
apply_cache_op-retain c (checks_out key) = checkout_found-retain c key (entry c key)
apply_cache_op-retain c (releases key) = release_found-retain c key (entry c key)
apply_cache_op-retain c (inserts key s) = refl
apply_cache_op-retain c names = refl

abbrev IsHeld : StatementCache → CacheKey → CachedStatement → ℕ → Type 0
IsHeld c key s h = entry c key ≡ some (record { stmt = s; handles = h })

checks_out-IsHeld :
    (c : StatementCache) (key : CacheKey) (s : CachedStatement) (h : ℕ)
    → IsHeld c key s h
    → IsHeld (checkout c key).0 key s (h + 1)
checks_out-IsHeld c key s h e =
    ap (λ (x : StatementCache × Option CachedStatement). entry x.0 key) (checkout_lem c key _ e)
    ∙ lookup-insert_self CacheKey-discrete key _ c.stmts

releases-IsHeld :
    (c : StatementCache) (key : CacheKey) (s : CachedStatement) (h n : ℕ)
    → IsHeld c key s h
    → released_one h ≡ some n
    → IsHeld (release_handle c key).0 key s n
releases-IsHeld c key s zero n e h = ground (arith, h)
releases-IsHeld c key s (suc zero) n e h = ground (arith, h)
releases-IsHeld c key s (suc (suc m)) n e h =
    ap (λ x. entry x key) (release_more c key s m e)
    ∙ lookup-insert_self CacheKey-discrete key _ c.stmts
    ∙ ap (λ k. some (record { stmt = s; handles = k })) (some-injective h)

inserts-entry_ne :
    (c : StatementCache) (k key : CacheKey) (s : CachedStatement)
    → k ≢ key
    → entry (insert_statement c k s) key ≡ entry c key
unfolding insert_statement
inserts-entry_ne c k key s n = put_entry-entry_ne c k key _ n

names-entry : (c : StatementCache) (key : CacheKey) → entry (next_name c).0 key ≡ entry c key
unfolding next_name
names-entry c key = refl

-- Where the entry stays as it is.
kept-IsHeld :
    (c d : StatementCache) (key : CacheKey) (s : CachedStatement) (h n : ℕ)
    → IsHeld c key s h
    → entry d key ≡ entry c key
    → Path (Option ℕ) (some h) (some n)
    → IsHeld d key s n
kept-IsHeld c d key s h n e same a =
    same ∙ e ∙ ap (λ m. some (record { stmt = s; handles = m })) (some-injective a)

apply_cache_op-IsHeld :
    (c : StatementCache) (key : CacheKey) (s : CachedStatement) (h n : ℕ) (o : CacheOp)
    → IsHeld c key s h
    → handles_after key h o ≡ some n
    → IsHeld (apply_cache_op c o) key s n
apply_cache_op-IsHeld c key s h n (checks_out k) e =
    elim (CacheKey-discrete k key)
      as (λ d.
        elim d [ yes p ↦ some (h + 1) | no q ↦ some h ] ≡ some n
        → IsHeld (checkout c k).0 key s n) [
          | yes p ↦ λ z.
              subst (λ x. IsHeld (checkout c x).0 key s n) (sym p)
                (checks_out-IsHeld c key s h e
                  ∙ ap (λ m. some (record { stmt = s; handles = m })) (some-injective z))
          | no q ↦ λ z. kept-IsHeld c (checkout c k).0 key s h n e (checkout-entry_ne c k key q) z
        ]
apply_cache_op-IsHeld c key s h n (releases k) e =
    elim (CacheKey-discrete k key)
      as (λ d.
        elim d [ yes p ↦ released_one h | no q ↦ some h ] ≡ some n
        → IsHeld (release_handle c k).0 key s n) [
          | yes p ↦ λ z.
              subst (λ x. IsHeld (release_handle c x).0 key s n) (sym p)
                (releases-IsHeld c key s h n e z)
          | no q ↦ λ z.
              kept-IsHeld c (release_handle c k).0 key s h n e (release_handle-entry_ne c k key q) z
        ]
apply_cache_op-IsHeld c key s h n (inserts k t) e =
    elim (CacheKey-discrete k key)
      as (λ d.
        elim d [ yes p ↦ none | no q ↦ some h ] ≡ some n
        → IsHeld (insert_statement c k t) key s n) [
          | yes p ↦ λ z. ground (arith, z)
          | no q ↦ λ z.
              kept-IsHeld c (insert_statement c k t) key s h n e (inserts-entry_ne c k key t q) z
        ]
apply_cache_op-IsHeld c key s h n names e =
    λ a. kept-IsHeld c (next_name c).0 key s h n e (names-entry c key) a

apply_cache_ops-IsHeld :
    (c : StatementCache) (key : CacheKey) (s : CachedStatement) (h n : ℕ) (ops : List CacheOp)
    → IsHeld c key s h
    → live_handles key h ops ≡ some n
    → IsHeld (apply_cache_ops c ops) key s n
      × ((apply_cache_ops c ops).retain_on_zero_handles ≡ c.retain_on_zero_handles)
unfolding apply_cache_ops
apply_cache_ops-IsHeld c key s h n [] e a =
    (e ∙ ap (λ m. some (record { stmt = s; handles = m })) (some-injective a), refl)
apply_cache_ops-IsHeld c key s h n (o ∷ ops) e a = elim (Option-cases (handles_after key h o)) [
  | inl z ↦ ground (arith, sym (ap (λ b. then_handles b (λ k. live_handles key k ops)) z) ∙ a)
  | inr (m, z) ↦
      let b = sym (ap (λ b. then_handles b (λ k. live_handles key k ops)) z) ∙ a in
      let (q, r) =
        apply_cache_ops-IsHeld (apply_cache_op c o) key s m n ops
          (apply_cache_op-IsHeld c key s h m o e z) b in
      (q, r ∙ apply_cache_op-retain c o)
]

-- A prepared statement lives as long as a handle to it. From its insertion on, let the session check out,
-- release and insert statements under any keys and take names, in any order, as long as no release takes the
-- last handle to this one and its key is not inserted again. If one handle is left at the end, the statement
-- is still in the cache under its key, and the next release is the one that hands it out to be closed and
-- drops it; a cache that retains statements keeps it instead, with no handle, and hands out nothing.
pub statement_lifetime :
    (c : StatementCache) (key : CacheKey) (s : CachedStatement) (ops : List CacheOp)
    → live_handles key 1 ops ≡ some 1
    → let c' = apply_cache_ops (insert_statement c key s) ops in
      let (c'', r) = release_handle c' key in
      (entry c' key ≡ some (record { stmt = s; handles = 1 }))
      × (r ≡ (if c.retain_on_zero_handles then none else some s))
      × (entry c'' key
          ≡ (if c.retain_on_zero_handles then some (record { stmt = s; handles = 0 }) else none))
statement_lifetime c key s ops b =
    let (e, r) = insert_statement-entry c key s in
    let (q, k) = apply_cache_ops-IsHeld (insert_statement c key s) key s 1 1 ops e b in
    let (a, z) = release_last (apply_cache_ops (insert_statement c key s) ops) key s q in
    (
      q,
      a ∙ ap (λ b'. if b' then none else some s) (k ∙ r),
      z ∙ ap (λ b'. if b' then some (record { stmt = s; handles = 0 }) else none) (k ∙ r),
    )
