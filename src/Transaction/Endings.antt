-- ===== src/Transaction/Endings.antt =====
-- How a transaction ends, whatever the server answers.
use babar.Prelude.{
  ◌≡◌, refl, ◌⊎◌, inl, inr, List, [], ◌∷◌, ◌++◌, Option, none, some, Bool, false, Bool-cases, ap,
  if◌then◌else◌, Result, ok, err,
}
use babar.Error.{Error}
use babar.Transaction.Nesting.{mark_lem}
use babar.Transaction.{
  Delivery, unqueued, unanswered, undeliverable, replied, delivered, drop_guard, Statement, Trace,
  guarded, begin, commit, rollback, end_transaction, transaction, rolled_back,
}

-- ROLLBACK is the last statement that a scope sent, or that a spawned task is to send; or the guard was
-- dropped outside of a runtime; or the driver was gone when ROLLBACK was to be sent, and that is the error.
abbrev pub RollsBack :
    {V : Type 0}
    → (List Statement → Delivery V)
    → (Trace → Bool)
    → Trace
    → Option (Result Error V)
    → Type 0
RollsBack server in_runtime u r =
    ((before : List Statement) × (u.sent ≡ before ++ (rollback ∷ [])))
    ⊎ ((before : List Statement) × (u.spawned ≡ before ++ (rollback ∷ [])))
    ⊎ (in_runtime u ≡ false)
    ⊎ ((e : Error) × (server (u.sent ++ (rollback ∷ [])) ≡ undeliverable e) × (r ≡ some (err e)))

abbrev pub IsClosed :
    {V : Type 0}
    → (List Statement → Delivery V)
    → (Trace → Bool)
    → Trace × Option (Result Error V)
    → Type 0
IsClosed {V = V} server in_runtime (u, some (ok v)) =
    (before : List Statement) × (w : V) × (u.sent ≡ before ++ (commit ∷ []))
    × (server u.sent ≡ replied (ok w))
IsClosed server in_runtime (u, some (err e)) = RollsBack server in_runtime u (some (err e))
IsClosed server in_runtime (u, none) = RollsBack server in_runtime u none

module _ {V : Type 0} (pooled : Bool) (server : List Statement → Delivery V)
    (in_runtime : Trace → Bool) where
  dropped-RollsBack :
      (t : Trace) (r : Option (Result Error V))
      → RollsBack server in_runtime (drop_guard pooled server in_runtime (rollback ∷ []) t) r
  dropped-RollsBack t r = elim (Bool-cases (in_runtime t)) [
    | inl e ↦ inr (
        inl (
          t.spawned,
          ap (λ b. (if b then record t { spawned = t.spawned ++ (rollback ∷ []) } else t).spawned)
              e,
        ))
    | inr e ↦ inr (inr (inl (rw e e)))
  ]

  commit-IsClosed :
      (t : Trace) (v : V) (o : Delivery V)
      → server (t.sent ++ (commit ∷ [])) ≡ o
      → IsClosed server in_runtime (
          guarded pooled server in_runtime
            (rollback ∷ [])
            (delivered pooled server in_runtime t (record t { sent = t.sent ++ (commit ∷ []) }) o)
            (λ u. (u, some (ok v))))
  commit-IsClosed t v unqueued e = dropped-RollsBack _ _
  commit-IsClosed t v unanswered e = dropped-RollsBack _ _
  commit-IsClosed t v (undeliverable x) e = dropped-RollsBack _ _
  commit-IsClosed t v (replied (err x)) e = dropped-RollsBack _ _
  commit-IsClosed t v (replied (ok w)) e = (t.sent, w, refl, e)

  rolled_back-IsClosed :
      (t : Trace) (x : Error) (o : Delivery V)
      → server (t.sent ++ (rollback ∷ [])) ≡ o
      → IsClosed server in_runtime (
          rolled_back pooled server in_runtime x (
            delivered pooled server in_runtime t (record t { sent = t.sent ++ (rollback ∷ []) }) o))
  rolled_back-IsClosed t x unqueued e = dropped-RollsBack _ _
  rolled_back-IsClosed t x unanswered e = dropped-RollsBack _ _
  rolled_back-IsClosed t x (undeliverable f) e = inr (inr (inr (f, e, refl)))
  rolled_back-IsClosed t x (replied (err f)) e = inl (t.sent, refl)
  rolled_back-IsClosed t x (replied (ok v)) e =
      inl (t.sent, (mark_lem pooled server in_runtime x _).0)

  end_transaction-IsClosed :
      (o : Trace × Option (Result Error V))
      → IsClosed server in_runtime (end_transaction pooled server in_runtime o)
  end_transaction-IsClosed (t, none) = dropped-RollsBack _ _
  end_transaction-IsClosed (t, some (ok v)) =
      commit-IsClosed t v (server (t.sent ++ (commit ∷ []))) refl
  end_transaction-IsClosed (t, some (err x)) =
      rolled_back-IsClosed t x (server (t.sent ++ (rollback ∷ []))) refl

  begin-IsClosed :
      (f : Trace → Trace × Option (Result Error V)) (t u : Trace) (o : Delivery V)
      → IsClosed server in_runtime (
          guarded pooled server in_runtime
            (rollback ∷ [])
            (delivered pooled server in_runtime t u o)
            (λ w. end_transaction pooled server in_runtime (f w)))
  begin-IsClosed f t u unqueued = dropped-RollsBack _ _
  begin-IsClosed f t u unanswered = dropped-RollsBack _ _
  begin-IsClosed f t u (undeliverable x) = dropped-RollsBack _ _
  begin-IsClosed f t u (replied (err x)) = dropped-RollsBack _ _
  begin-IsClosed f t u (replied (ok v)) = end_transaction-IsClosed (f u)

-- Whatever becomes of its statements, and whatever the closure does: a transaction returns a value only when
-- the last statement it sent is a COMMIT that the server accepted. When it returns an error or is dropped,
-- ROLLBACK is the last statement that it sent, or the last that its guards leave to a spawned task; unless
-- the guard was dropped outside of a runtime, or the driver was gone when ROLLBACK was to be sent, which is
-- then the error that is returned.
pub transaction-IsClosed :
    {V : Type 0} (pooled : Bool) (server : List Statement → Delivery V) (in_runtime : Trace → Bool)
    (f : Trace → Trace × Option (Result Error V)) (t : Trace)
    → IsClosed server in_runtime (transaction pooled server in_runtime f t)
unfolding transaction
transaction-IsClosed pooled server in_runtime f t =
    begin-IsClosed pooled server in_runtime f t (record t { sent = t.sent ++ (begin ∷ []) })
      (server (t.sent ++ (begin ∷ [])))
