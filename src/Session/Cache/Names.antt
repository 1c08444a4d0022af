-- ===== src/Session/Cache/Names.antt =====
-- The names of prepared statements.
use babar.Prelude.{
  ℕ, ◌+◌, ◌%◌, ◌≤◌, ◌<◌, ◌≡◌, ◌≢◌, refl, List, [], ◌∷◌, ◌++◌, Option, none, some, length, arith, ap,
  sym, ◌∙◌, some-injective,
}
use babar.Rust.{ascii, u64_to_string, parse_u64, parse_u64-u64_to_string}
use babar.Session.Cache.{
  CacheKey, CachedStatement, CacheEntry, StatementCache, checkout, checkout_found, insert_statement,
  release_handle, release_found, next_name, entry,
}

-- What a session does with its cache.
pub data CacheOp : Type 0 where
  checks_out releases : CacheKey → CacheOp
  inserts : CacheKey → CachedStatement → CacheOp
  names : CacheOp

abbrev pub apply_cache_op : StatementCache → CacheOp → StatementCache
apply_cache_op c (checks_out key) = (checkout c key).0
apply_cache_op c (releases key) = (release_handle c key).0
apply_cache_op c (inserts key s) = insert_statement c key s
apply_cache_op c names = (next_name c).0

unfoldable pub apply_cache_ops : StatementCache → List CacheOp → StatementCache
apply_cache_ops c [] = c
apply_cache_ops c (o ∷ ops) = apply_cache_ops (apply_cache_op c o) ops

checkout_found-counter :
    (c : StatementCache) (key : CacheKey) (o : Option CacheEntry)
    → (checkout_found c key o).0.counter ≡ c.counter
checkout_found-counter c key none = refl
checkout_found-counter c key (some e) = refl

release_found-counter :
    (c : StatementCache) (key : CacheKey) (o : Option CacheEntry)
    → (release_found c key o).0.counter ≡ c.counter
release_found-counter c key none = refl
release_found-counter c key (some e) = ground arith

apply_cache_op-counter :
    (c : StatementCache) (o : CacheOp)
    → c.counter + 1 < 0x1_0000_0000_0000_0000
    → (c.counter ≤ (apply_cache_op c o).counter) × ((apply_cache_op c o).counter ≤ c.counter + 1)
unfolding checkout release_handle insert_statement next_name
apply_cache_op-counter c (checks_out key) h =
    omega (arith, checkout_found-counter c key (entry c key))
apply_cache_op-counter c (releases key) h = omega (arith, release_found-counter c key (entry c key))
apply_cache_op-counter c (inserts key s) h = omega arith
apply_cache_op-counter c names h = omega arith

apply_cache_ops-counter :
    (c : StatementCache) (ops : List CacheOp)
    → c.counter + length ops < 0x1_0000_0000_0000_0000
    → (c.counter ≤ (apply_cache_ops c ops).counter)
      × ((apply_cache_ops c ops).counter ≤ c.counter + length ops)
unfolding apply_cache_ops
apply_cache_ops-counter c [] h = omega arith
apply_cache_ops-counter c (o ∷ ops) h =
    let (a, b) = apply_cache_op-counter c o (omega arith) in
    let (l, u) = apply_cache_ops-counter (apply_cache_op c o) ops (omega arith) in
    (omega arith, omega arith)

u64_to_string-injective :
    (n m : ℕ)
    → n < 0x1_0000_0000_0000_0000
    → m < 0x1_0000_0000_0000_0000
    → u64_to_string n ≡ u64_to_string m
    → n ≡ m
u64_to_string-injective n m h k e =
    some-injective
      (sym (parse_u64-u64_to_string n h) ∙ ap parse_u64 e ∙ parse_u64-u64_to_string m k)

prefix-injective : (s t : List ℕ) → ascii "_babar_" ++ s ≡ ascii "_babar_" ++ t → s ≡ t
prefix-injective s t e = cc

-- A name that has been given out is not given out again, whatever the session does with its cache in
-- between, as long as its counter stays within 64 bits.
pub next_name_fresh :
    (c : StatementCache) (ops : List CacheOp)
    → c.counter + length ops + 2 < 0x1_0000_0000_0000_0000
    → let (c', name) = next_name c in (next_name (apply_cache_ops c' ops)).1 ≢ name
unfolding next_name
next_name_fresh c ops h e =
    let c' : StatementCache = (next_name c).0 in
    let (l, u) = apply_cache_ops-counter c' ops (omega arith) in
    let n : ℕ = ((apply_cache_ops c' ops).counter + 1) % 0x1_0000_0000_0000_0000 in
    let m : ℕ = (c.counter + 1) % 0x1_0000_0000_0000_0000 in
    let same : n ≡ m =
      u64_to_string-injective n m (omega arith) (omega arith)
        (prefix-injective (u64_to_string n) (u64_to_string m) e) in
    absurd (omega arith)
