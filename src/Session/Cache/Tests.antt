-- ===== src/Session/Cache/Tests.antt =====
-- The theorems on the statement cache at a concrete statement.
use babar.Prelude.{ℕ, ◌≡◌, ◌≢◌, refl, List, [], ◌∷◌, none, some, false, arith}
use babar.Rust.{ascii}
use babar.Session.Cache.{
  CacheKey, CachedStatement, new_cache, new_key, entry, insert_statement, release_handle, next_name,
}
use babar.Session.Cache.Lifetime.{live_handles, statement_lifetime}
use babar.Session.Cache.Names.{
  CacheOp, checks_out, releases, names, inserts, apply_cache_ops, next_name_fresh,
}

abbrev hash : List ℕ → ℕ
hash [] = 7
hash (b ∷ bs) = b

abbrev select_key : CacheKey
select_key = new_key hash (ascii "SELECT 1") []

abbrev statement : CachedStatement
statement = record { name = ascii "_babar_1"; param_oids = []; row_fields = [] }

abbrev update_key : CacheKey
update_key = new_key hash (ascii "UPDATE t") []

abbrev holders : List CacheOp
holders =
    checks_out select_key
    ∷ names
    ∷ inserts update_key statement
    ∷ releases select_key
    ∷ releases update_key
    ∷ []

one_left : live_handles select_key 1 holders ≡ some 1
unfolding babar.Session.Cache.CacheKey-discrete native.Mathlib.Decide.ℕ_discrete
one_left = refl

statement_lifetime_example :
    let c = apply_cache_ops (insert_statement (new_cache false) select_key statement) holders in
    (entry c select_key ≡ some (record { stmt = statement; handles = 1 }))
    × ((release_handle c select_key).1 ≡ some statement)
    × (entry (release_handle c select_key).0 select_key ≡ none)
statement_lifetime_example =
    statement_lifetime (new_cache false) select_key statement holders one_left

next_name_fresh_example :
    (next_name (
      apply_cache_ops
        (next_name (new_cache false)).0
        (inserts select_key statement ∷ names ∷ []))).1
    ≢ (next_name (new_cache false)).1
next_name_fresh_example =
    next_name_fresh (new_cache false) (inserts select_key statement ∷ names ∷ []) (omega arith)
