-- ===== src/Pool/Closing.antt =====
-- A pool that was closed keeps no session.
use babar.Prelude.{
  ℕ, zero, suc, ◌+◌, ◌≡◌, refl, List, [], ◌∷◌, ◌++◌, some, Bool, true, false, length, get_elem?,
  inl, inr, subst, sym, ◌∙◌, Bool-cases, Option-cases, ==_iff, some-injective, if◌then◌else◌, ◌==◌,
  arith,
}
use babar.Pool.Config.{PoolConfig}
use babar.Pool.Tasks
use babar.Pool.System
use babar.Pool.Invariants.{
  sum_tasks, sum_tasks-set_task, set_task_self, set_task_other, length-unexpired, run_pool-Holds,
}

abbrev pub is_draining : Tasks.Task → ℕ
is_draining Tasks.draining = 1
is_draining t = 0

-- The flag is set where a `close` is to take the idle sessions.
abbrev IsFlagged : Tasks.PoolState → (drainings lost : ℕ) → Type 0
IsFlagged s drainings lost = (if s.closed then 0 else drainings) ≡ 0

advance_task-IsFlagged :
    (c : PoolConfig) (now : ℕ) (s : Tasks.PoolState) (t : Tasks.Task) (input : Tasks.Input)
    (others lost : ℕ)
    → IsFlagged s (is_draining t + others) lost
    → let o = Tasks.advance_task c now s t input in
      IsFlagged o.state (is_draining o.task + others) (lost + o.lost)
unfolding Tasks.advance_task Tasks.expire
advance_task-IsFlagged c now s t input others lost h = ground arith

abbrev no_slot : Tasks.Task → ℕ
no_slot t = 0

abbrev IsDrained : Tasks.PoolState → (held lost : ℕ) → Type 0
IsDrained s held lost = (s.closed ≡ true) × (length s.idle ≡ 0)

advance_task-IsDrained :
    (c : PoolConfig) (now : ℕ) (s : Tasks.PoolState) (t : Tasks.Task) (input : Tasks.Input)
    (others lost : ℕ)
    → IsDrained s (no_slot t + others) lost
    → let o = Tasks.advance_task c now s t input in
      IsDrained o.state (no_slot o.task + others) (lost + o.lost)
unfolding Tasks.advance_task Tasks.expire
advance_task-IsDrained c now s t input others lost (a, b) =
    ground (arith, length-unexpired c now s.idle)

drains-flagged :
    (y : System.System) (i : ℕ)
    → IsFlagged y.state (sum_tasks is_draining y.tasks) y.lost
    → get_elem? y.tasks i ≡ some Tasks.draining
    → y.state.closed ≡ true
drains-flagged y i h at =
    let (others, e, g) = sum_tasks-set_task is_draining y.tasks i Tasks.draining at in
    ground (arith, h, e)

taken-IsDrained :
    (c : PoolConfig) (y : System.System) (i : ℕ)
    → y.state.closed ≡ true
    → get_elem? y.tasks i ≡ some Tasks.draining
    → let z = System.run_task c y i Tasks.go (get_elem? y.tasks i) in
      IsDrained z.state (sum_tasks no_slot z.tasks) z.lost
unfolding Tasks.advance_task
taken-IsDrained c y i closed at =
    subst
      (λ o.
        let z = System.run_task c y i Tasks.go o in
        IsDrained z.state (sum_tasks no_slot z.tasks) z.lost)
      (sym at) (closed, refl)

-- Whatever the tasks of a pool do, in any order: once a `close` has taken the idle sessions, the pool stays
-- closed and there is no idle session, also when connections come back later.
pub run_drained :
    (c : PoolConfig) (clock : ℕ) (before : List System.Event) (i : ℕ) (after : List System.Event)
    → let y = System.run_pool c (System.new_pool clock) before in
      get_elem? y.tasks i ≡ some Tasks.draining
      → let z = System.run_pool c (System.pool_step c y (System.runs i Tasks.go)) after in
        (z.state.closed ≡ true) × (length z.state.idle ≡ 0)
unfolding System.pool_step
run_drained c clock before i after at =
    let y = System.run_pool c (System.new_pool clock) before in
    let flagged =
      run_pool-Holds c is_draining IsFlagged (λ d. refl) refl refl (advance_task-IsFlagged c)
        (System.new_pool clock) before refl in
    run_pool-Holds c no_slot IsDrained (λ d. refl) refl refl (advance_task-IsDrained c)
      (System.run_task c y i Tasks.go (get_elem? y.tasks i)) after
      (taken-IsDrained c y i (drains-flagged y i flagged at) at)

-- What can become of an `acquire` that begins once the pool is closed.
abbrev pub is_turned_away : Tasks.Task → Bool
is_turned_away (Tasks.acquiring d) = true
is_turned_away (Tasks.refused Tasks.pool_closed) = true
is_turned_away Tasks.finished = true
is_turned_away t = false

-- A closed pool whose task at an index is turned away.
abbrev TurnsAway : ℕ → System.System → Type 0
TurnsAway j y =
    (y.state.closed ≡ true)
    × (t : Tasks.Task) × (get_elem? y.tasks j ≡ some t)
    × (is_turned_away t ≡ true)

advance_task-closed :
    (c : PoolConfig) (now : ℕ) (s : Tasks.PoolState) (t : Tasks.Task) (input : Tasks.Input)
    → s.closed ≡ true
    → ((Tasks.advance_task c now s t input).state.closed ≡ true)
      × (is_turned_away t ≡ true → is_turned_away (Tasks.advance_task c now s t input).task ≡ true)
unfolding Tasks.advance_task Tasks.expire
advance_task-closed c now s t input closed = ground (arith, closed)

get_elem-append :
    (xs ys : List Tasks.Task) (j : ℕ) (t : Tasks.Task)
    → get_elem? xs j ≡ some t
    → get_elem? (xs ++ ys) j ≡ some t
get_elem-append [] ys j t h = ground (arith, h)
get_elem-append (x ∷ xs) ys zero t h = h
get_elem-append (x ∷ xs) ys (suc j) t h = get_elem-append xs ys j t h

get_elem-snoc :
    (xs : List Tasks.Task) (t : Tasks.Task) → get_elem? (xs ++ (t ∷ [])) (length xs) ≡ some t
get_elem-snoc [] t = refl
get_elem-snoc (x ∷ xs) t = get_elem-snoc xs t

module _ (c : PoolConfig) (j : ℕ) where
  run_task-TurnsAway :
      (y : System.System) (i : ℕ) (input : Tasks.Input)
      → TurnsAway j y
      → TurnsAway j (System.run_task c y i input (get_elem? y.tasks i))
  run_task-TurnsAway y i input (closed, t, at, away) = elim (Option-cases (get_elem? y.tasks i)) [
    | inl h ↦ subst (λ o. TurnsAway j (System.run_task c y i input o)) (sym h) (closed, t, at, away)
    | inr (u, h) ↦
        let (still, kept) = advance_task-closed c y.clock y.state u input closed in
        let v = (Tasks.advance_task c y.clock y.state u input).task in
        subst (λ o. TurnsAway j (System.run_task c y i input o)) (sym h)
          (elim (Bool-cases (i == j)) [
            | inl e ↦
                let p = (==_iff i j).0 e in
                (
                  still,
                  v,
                  subst (λ k. get_elem? (System.set_task y.tasks i v) k ≡ some v) p
                      (set_task_self y.tasks i u v h),
                  kept (
                      subst (λ w. is_turned_away w ≡ true)
                        (some-injective (sym at ∙ subst (λ k. get_elem? y.tasks k ≡ some u) p h))
                        away),
                )
            | inr e ↦
                (still, t, set_task_other y.tasks i j v (λ p. ground (arith, e, p)) ∙ at, away)
          ])
  ]

  pool_step-TurnsAway :
      (y : System.System) (event : System.Event)
      → TurnsAway j y
      → TurnsAway j (System.pool_step c y event)
  unfolding System.pool_step
  pool_step-TurnsAway y System.acquires (closed, t, at, away) =
      (closed, t, get_elem-append y.tasks _ j t at, away)
  pool_step-TurnsAway y System.closes (closed, t, at, away) =
      (closed, t, get_elem-append y.tasks _ j t at, away)
  pool_step-TurnsAway y System.ticks (closed, t, at, away) =
      subst
        (λ b. TurnsAway j (if b then y else record y { tasks = y.tasks ++ (Tasks.ticking ∷ []) }))
        (sym closed) (closed, t, at, away)
  pool_step-TurnsAway y (System.time_passes n) h = h
  pool_step-TurnsAway y (System.runs i input) h = run_task-TurnsAway y i input h

  run_pool-TurnsAway :
      (y : System.System) (events : List System.Event)
      → TurnsAway j y
      → TurnsAway j (System.run_pool c y events)
  unfolding System.run_pool
  run_pool-TurnsAway y [] h = h
  run_pool-TurnsAway y (e ∷ events) h =
      run_pool-TurnsAway (System.pool_step c y e) events (pool_step-TurnsAway y e h)

-- An `acquire` that begins when the pool is closed gets no connection and no error but `PoolError::Closed`,
-- whatever the other tasks do: it has not gone on, is refused, or was dropped. And the pool stays closed.
pub run_turns_away :
    (c : PoolConfig) (y : System.System) (events : List System.Event)
    → y.state.closed ≡ true
    → let z = System.run_pool c (System.pool_step c y System.acquires) events in
      (z.state.closed ≡ true)
      × (t : Tasks.Task) × (get_elem? z.tasks (length y.tasks) ≡ some t)
      × (is_turned_away t ≡ true)
unfolding System.pool_step
run_turns_away c y events closed =
    let begun = Tasks.acquiring (y.clock + c.acquire_timeout) in
    run_pool-TurnsAway c (length y.tasks) (System.pool_step c y System.acquires) events
      (closed, begun, get_elem-snoc y.tasks begun, refl)
