-- ===== src/Pool/Invariants.antt =====
-- Facts on the pool's state that hold whatever the tasks do, in any order.
use babar.Prelude.{
  ◌≢◌, ap, ℕ, zero, suc, ◌+◌, ◌≤◌, ◌≡◌, refl, List, [], ◌∷◌, ◌++◌, some, length, get_elem?, true,
  false, if◌then◌else◌, arith, inl, inr, Option-cases, subst, sym,
}
use babar.Pool.Config.{PoolConfig, IdleSession}
use babar.Pool.Tasks.{
  PoolState, unexpired, storing, Task, Input, acquiring, ticking, closing, advance_task,
}
use babar.Pool.System

-- What a number per task adds up to over the tasks.
abbrev pub sum_tasks : (Task → ℕ) → List Task → ℕ
sum_tasks f [] = 0
sum_tasks f (t ∷ tasks) = f t + sum_tasks f tasks

pub sum_tasks-append :
    (f : Task → ℕ) (xs ys : List Task) → sum_tasks f (xs ++ ys) ≡ sum_tasks f xs + sum_tasks f ys
sum_tasks-append f [] ys = omega arith
sum_tasks-append f (x ∷ xs) ys = ground (arith, sum_tasks-append f xs ys)

-- A task taken out: what the others add up to, whatever takes the task's place.
pub sum_tasks-set_task :
    (f : Task → ℕ) (tasks : List Task) (i : ℕ) (t : Task)
    → get_elem? tasks i ≡ some t
    → (others : ℕ) × (sum_tasks f tasks ≡ f t + others)
      × ((u : Task) → sum_tasks f (System.set_task tasks i u) ≡ f u + others)
sum_tasks-set_task f [] i t h = ground (arith, h)
sum_tasks-set_task f (x ∷ tasks) zero t h = (sum_tasks f tasks, ground (arith, h), λ u. refl)
sum_tasks-set_task f (x ∷ tasks) (suc i) t h =
    let (others, e, g) = sum_tasks-set_task f tasks i t h in
    (f x + others, ground (arith, e), λ u. ground (arith, g u))

abbrev pub stored_by : Task → List IdleSession
stored_by (storing i fills) = i ∷ []
stored_by t = []

pub length-unexpired :
    (c : PoolConfig) (now : ℕ) (idle : List IdleSession)
    → length (unexpired c now idle) ≤ length idle
length-unexpired c now [] = omega arith
length-unexpired c now (i ∷ idle) = ground (arith, length-unexpired c now idle)

pub set_task_self :
    (tasks : List Task) (i : ℕ) (t u : Task)
    → get_elem? tasks i ≡ some t
    → get_elem? (System.set_task tasks i u) i ≡ some u
set_task_self [] i t u h = ground (arith, h)
set_task_self (x ∷ tasks) zero t u h = refl
set_task_self (x ∷ tasks) (suc i) t u h = set_task_self tasks i t u h

pub set_task_other :
    (tasks : List Task) (i j : ℕ) (u : Task)
    → i ≢ j
    → get_elem? (System.set_task tasks i u) j ≡ get_elem? tasks j
set_task_other [] i j u h = refl
set_task_other (x ∷ tasks) zero zero u h = absurd (h refl)
set_task_other (x ∷ tasks) zero (suc j) u h = refl
set_task_other (x ∷ tasks) (suc i) zero u h = refl
set_task_other (x ∷ tasks) (suc i) (suc j) u h = set_task_other tasks i j u (λ e. h (ap suc e))

-- A fact `Q` on the state, the tasks' numbers added up and the lost slots holds of every pool that is
-- reached, when each section of a task keeps it and a new task has the number 0.
module _ (c : PoolConfig) (f : Task → ℕ) (Q : PoolState → ℕ → ℕ → Type 0)
    (acquiring_zero : (d : ℕ) → f (acquiring d) ≡ 0) (ticking_zero : f ticking ≡ 0)
    (closing_zero : f closing ≡ 0)
    (advance_task_lem : (now : ℕ) (s : PoolState) (t : Task) (input : Input) (others lost : ℕ)
      → Q s (f t + others) lost
      → Q
          (advance_task c now s t input).state
          (f (advance_task c now s t input).task + others)
          (lost + (advance_task c now s t input).lost)) where
  abbrev pub Holds : System.System → Type 0
  Holds y = Q y.state (sum_tasks f y.tasks) y.lost

  run_task-Holds :
      (y : System.System) (i : ℕ) (input : Input)
      → Holds y
      → Holds (System.run_task c y i input (get_elem? y.tasks i))
  run_task-Holds y i input q = elim (Option-cases (get_elem? y.tasks i)) [
    | inl h ↦ subst (λ o. Holds (System.run_task c y i input o)) (sym h) q
    | inr (t, h) ↦
        let (others, a, b) = sum_tasks-set_task f y.tasks i t h in
        let o = advance_task c y.clock y.state t input in
        subst (λ o. Holds (System.run_task c y i input o)) (sym h)
          (subst (λ n. Q o.state n (y.lost + o.lost)) (sym (b o.task))
            (advance_task_lem y.clock y.state t input others y.lost
              (subst (λ n. Q y.state n y.lost) a q)))
  ]

  starts-Holds :
      (y : System.System) (t : Task)
      → f t ≡ 0
      → Holds y
      → Holds (record y { tasks = y.tasks ++ (t ∷ []) })
  starts-Holds y t z q =
      subst (λ n. Q y.state n y.lost) (omega (arith, sum_tasks-append f y.tasks (t ∷ []), z)) q

  pool_step-Holds :
      (y : System.System) (event : System.Event) → Holds y → Holds (System.pool_step c y event)
  unfolding System.pool_step
  pool_step-Holds y System.acquires q = starts-Holds y _ (acquiring_zero _) q
  pool_step-Holds y System.closes q = starts-Holds y closing closing_zero q
  pool_step-Holds y System.ticks q =
      elim (y.state.closed)
        as (λ b. Holds (if b then y else record y { tasks = y.tasks ++ (ticking ∷ []) })) [
          | true ↦ q
          | false ↦ starts-Holds y ticking ticking_zero q
        ]
  pool_step-Holds y (System.time_passes n) q = q
  pool_step-Holds y (System.runs i input) q = run_task-Holds y i input q

  pub run_pool-Holds :
      (y : System.System) (events : List System.Event)
      → Holds y
      → Holds (System.run_pool c y events)
  unfolding System.run_pool
  run_pool-Holds y [] q = q
  run_pool-Holds y (e ∷ events) q =
      run_pool-Holds (System.pool_step c y e) events (pool_step-Holds y e q)
