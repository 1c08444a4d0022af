-- ===== src/Transaction/Tests.antt =====
-- A transaction with a savepoint, and the theorems at it.
use babar.Prelude.{◌≡◌, refl, ℕ, List, [], ◌∷◌, Bool, true, false, ok, err}
use babar.Error.{io}
use babar.Transaction.{
  Delivery, replied, Statement, Trace, Program, begin, commit, rollback, rollback_to, release,
  returns, calls, nests, abandons, transaction, run_program, run_savepoint,
}
use babar.Transaction.Endings.{IsClosed, transaction-IsClosed}

abbrev fresh : Trace
fresh = record { sent = []; next_id = 1; spawned = []; broken = false }

abbrev always : Trace → Bool
always t = true

-- A server that accepts everything.
abbrev accepts_all : List Statement → Delivery ℕ
accepts_all sent = replied (ok 0)

-- The savepoint fails, the closure goes on regardless, and is dropped in a second savepoint.
abbrev nested : Program ℕ
nested =
    nests (calls (0 ∷ []) (λ r. returns (err (io 5))))
      (λ r. nests (calls (1 ∷ []) (λ s. abandons)) (λ s. returns s))

nested_trace :
    (transaction false accepts_all always
      (run_program false accepts_all always nested)
      fresh).0.spawned
    ≡ rollback_to 2 ∷ release 2 ∷ rollback ∷ []
unfolding transaction run_program run_savepoint
nested_trace = refl

-- A server that refuses COMMIT.
abbrev refuses : List Statement → Delivery ℕ
refuses [] = replied (ok 0)
refuses (begin ∷ commit ∷ sent) = replied (err (io 3))
refuses (s ∷ sent) = replied (ok 0)

transaction-IsClosed_example :
    IsClosed refuses always
      (transaction true refuses always (run_program true refuses always (returns (ok 7))) fresh)
transaction-IsClosed_example =
    transaction-IsClosed true refuses always (run_program true refuses always (returns (ok 7)))
      fresh
