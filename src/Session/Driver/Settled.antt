-- ===== src/Session/Driver/Settled.antt =====
-- Whole runs of the driver: what has been accepted, what has been answered, and what is left when the
-- loop has ended.
use babar.Prelude.{ℕ, ◌+◌, ◌≡◌, List, [], ◌∷◌, Option, none, true, false, arith, ◌⊎◌}
use babar.Error.{Error}
use babar.Protocol.Frontend.{Frontend}
use babar.Session.Driver.State.{Driver}
use babar.Session.Driver.Advance.{Advance}
use babar.Session.Driver.Run.{Event, step, run, new_driver}
use babar.Session.Driver.Tally.{tally}
use babar.Session.Driver.Replies.{accepted, step-tally}

-- The loop goes on, or nothing is pending, nothing waits and nothing is let in.
abbrev pub IsSettled : Driver → Type 0
IsSettled d = (d.pending ≡ none) × (d.inbox ≡ []) × (d.accepting ≡ false)

abbrev pub Invariant : Driver → Type 0
Invariant d = (d.running ≡ true) ⊎ IsSettled d

module _ (reject : Frontend → Option Error) where
  -- How often the channel `n` comes with an accepted command.
  abbrev pub all_accepted : ℕ → Driver → List Event → ℕ
  all_accepted n d [] = 0
  all_accepted n d (e ∷ es) = accepted reject n d e + all_accepted n (step reject d e) es

  run-tally :
      (n : ℕ) (d : Driver) (es : List Event)
      → tally n (run reject d es) ≡ tally n d + all_accepted n d es
  unfolding run
  run-tally n d [] = omega arith
  run-tally n d (e ∷ es) = omega (arith, run-tally n (step reject d e) es, step-tally reject n d e)

  -- At every moment of every run, a channel has been answered at most as often as a command with it was
  -- accepted, and what is missing is in flight or waits in the inbox.
  pub run_owes :
      (n status : ℕ) (es : List Event)
      → tally n (run reject (new_driver status) es) ≡ all_accepted n (new_driver status) es
  run_owes n status es = omega (arith, run-tally n (new_driver status) es)
