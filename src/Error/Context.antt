-- ===== src/Error/Context.antt =====
-- Errors carry the first SQL text that is attached, and the fields of the server's response.
use babar.Prelude.{ℕ, ◌≡◌, List, Option, some, arith}
use babar.Error.Defs.{Error, Origin, with_sql, add_context}

-- The first context that has both a text and an origin stays, whatever is attached later.
pub with_sql_twice :
    (e : Error) (first second : List ℕ) (o : Origin) (p : Option Origin)
    → with_sql (with_sql e first (some o)) second p ≡ with_sql e first (some o)
unfolding with_sql add_context
with_sql_twice e first second o p = ground arith
