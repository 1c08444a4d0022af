-- ===== src/Transaction/Nesting.antt =====
-- Scopes that are bracketed, and what the ends of a scope share.
use babar.Prelude.{
  ℕ, List, [], ◌∷◌, ◌++◌, ◌≡◌, refl, Bool, true, false, append_assoc, sym, ap, ◌∙◌, subst,
}
use babar.Error.{Error}
use babar.Transaction.{Statement, Trace, Delivery, mark, savepoint, rollback_to, release, sql}

-- Each savepoint is released, or rolled back to and released, behind the scopes that were opened in it.
pub data IsNested : List Statement → Type 0 where
  nothing : IsNested []
  statement : {rest : List Statement} (s : List ℕ) → IsNested rest → IsNested (sql s ∷ rest)
  released :
      {body rest : List Statement} (n : ℕ)
      → IsNested body
      → IsNested rest
      → IsNested (savepoint n ∷ (body ++ (release n ∷ rest)))
  undone :
      {body rest : List Statement} (n : ℕ)
      → IsNested body
      → IsNested rest
      → IsNested (savepoint n ∷ (body ++ (rollback_to n ∷ release n ∷ rest)))

pub IsNested-append : {xs ys : List Statement} → IsNested xs → IsNested ys → IsNested (xs ++ ys)
IsNested-append nothing q = q
IsNested-append (statement s p) q = statement s (IsNested-append p q)
IsNested-append {ys = ys} (released {body = body} {rest = rest} n b p) q =
    subst (λ z. IsNested (savepoint n ∷ z)) (sym (append_assoc body (release n ∷ rest) ys))
      (released n b (IsNested-append p q))
IsNested-append {ys = ys} (undone {body = body} {rest = rest} n b p) q =
    subst (λ z. IsNested (savepoint n ∷ z))
      (sym (append_assoc body (rollback_to n ∷ release n ∷ rest) ys))
      (undone n b (IsNested-append p q))

-- What follows a body moves behind the statement in front of it.
pub rejoin :
    {w : List Statement} (u t body : List Statement) (x : Statement) (rest : List Statement)
    → w ≡ u ++ body
    → u ≡ t ++ (x ∷ [])
    → w ++ rest ≡ t ++ (x ∷ (body ++ rest))
rejoin u t body x rest p q =
    ap (λ z. z ++ rest) p
    ∙ append_assoc u body rest
    ∙ ap (λ z. z ++ (body ++ rest)) q
    ∙ append_assoc t (x ∷ []) (body ++ rest)

pub mark_lem :
    {V : Type 0} (pooled : Bool) (server : List Statement → Delivery V) (in_runtime : Trace → Bool)
    (e : Error) (t : Trace)
    → ((mark pooled server in_runtime e t).sent ≡ t.sent)
      × ((mark pooled server in_runtime e t).spawned ≡ t.spawned)
mark_lem pooled server in_runtime e t =
    elim pooled
      as (λ p.
        ((mark p server in_runtime e t).sent ≡ t.sent)
        × ((mark p server in_runtime e t).spawned ≡ t.spawned)) [
          | true ↦ (refl, refl)
          | false ↦ (refl, refl)
        ]
