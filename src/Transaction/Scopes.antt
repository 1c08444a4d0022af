-- ===== src/Transaction/Scopes.antt =====
-- How the statements of a scope are bracketed, when the server accepts every control command.
use babar.Prelude.{List, [], ◌∷◌, ◌++◌, ◌≡◌, Option, none, some, Bool, true, false, Result, ok, err}
use babar.Error.{Error}
use babar.Transaction.Nesting.{IsNested}
use babar.Transaction.{Delivery, replied, Statement, Trace, begin, commit, rollback, sql}

abbrev pub is_control : Statement → Bool
is_control (sql s) = false
is_control s = true

-- The server accepts every control command, whatever was sent before.
abbrev pub AcceptsControl : {V : Type 0} → (List Statement → Delivery V) → Type 0
AcceptsControl {V = V} server =
    (sent : List Statement) (s : Statement)
    → is_control s ≡ true
    → (v : V) × (server (sent ++ (s ∷ [])) ≡ replied (ok v))

-- What was sent since a trace, with what the spawned tasks send_statement when the future was dropped, is nested.
abbrev pub IsBracketed : {V : Type 0} → Trace → Trace × Option (Result Error V) → Type 0
IsBracketed t (u, none) =
    (body : List Statement) × IsNested body × (u.sent ++ u.spawned ≡ t.sent ++ body)
IsBracketed t (u, some r) =
    (body : List Statement) × IsNested body × (u.sent ≡ t.sent ++ body) × (u.spawned ≡ [])

-- The same for a whole transaction.
abbrev pub IsEnded : {V : Type 0} → Trace → Trace × Option (Result Error V) → Type 0
IsEnded t (u, none) =
    (body : List Statement) × IsNested body
    × (u.sent ++ u.spawned ≡ t.sent ++ (begin ∷ (body ++ (rollback ∷ []))))
IsEnded t (u, some (ok v)) =
    (body : List Statement) × IsNested body
    × (u.sent ≡ t.sent ++ (begin ∷ (body ++ (commit ∷ []))))
    × (u.spawned ≡ [])
IsEnded t (u, some (err e)) =
    (body : List Statement) × IsNested body
    × (u.sent ≡ t.sent ++ (begin ∷ (body ++ (rollback ∷ []))))
    × (u.spawned ≡ [])
