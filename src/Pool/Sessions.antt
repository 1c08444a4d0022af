-- ===== src/Pool/Sessions.antt =====
-- No session is in two places: idle twice, with two tasks, or idle and with a task.
use babar.Prelude.{ℕ, ◌+◌, ◌≤◌, ◌≡◌, refl, List, [], ◌∷◌, ◌++◌, if◌then◌else◌, ltb, ◌==◌, arith}
use babar.Pool.Config.{PoolConfig, IdleSession}
use babar.Pool.Tasks
use babar.Pool.System
use babar.Pool.Invariants.{sum_tasks, stored_by, run_pool-Holds}

-- How often a session is among the idle ones, and whether a task has it.
abbrev pub idle_count : ℕ → List IdleSession → ℕ
idle_count n [] = 0
idle_count n (i ∷ idle) = (if i.session == n then 1 else 0) + idle_count n idle

abbrev pub task_count : ℕ → Tasks.Task → ℕ
task_count n (Tasks.checking d i) = if i.session == n then 1 else 0
task_count n (Tasks.pinging d i) = if i.session == n then 1 else 0
task_count n (Tasks.dropping_expired d i) = if i.session == n then 1 else 0
task_count n (Tasks.dropping_unhealthy d i e) = if i.session == n then 1 else 0
task_count n (Tasks.connection session t b) = if session == n then 1 else 0
task_count n (Tasks.recycling session t b) = if session == n then 1 else 0
task_count n (Tasks.discarding session f) = if session == n then 1 else 0
task_count n (Tasks.storing i f) = if i.session == n then 1 else 0
task_count n t = 0

idle_count-append :
    (n : ℕ) (xs ys : List IdleSession) → idle_count n (xs ++ ys) ≡ idle_count n xs + idle_count n ys
idle_count-append n [] ys = omega arith
idle_count-append n (x ∷ xs) ys = ground (arith, idle_count-append n xs ys)

idle_count-unexpired :
    (n : ℕ) (c : PoolConfig) (now : ℕ) (idle : List IdleSession)
    → idle_count n (Tasks.unexpired c now idle) ≤ idle_count n idle
idle_count-unexpired n c now [] = omega arith
idle_count-unexpired n c now (i ∷ idle) = ground (arith, idle_count-unexpired n c now idle)

-- A session that was opened is in one place at most, and one that was not is nowhere.
abbrev IsSingle : ℕ → Tasks.PoolState → (held lost : ℕ) → Type 0
IsSingle n s held lost = idle_count n s.idle + held ≤ (if ltb n s.opened then 1 else 0)

advance_task-IsSingle :
    (n : ℕ) (c : PoolConfig) (now : ℕ) (s : Tasks.PoolState) (t : Tasks.Task) (input : Tasks.Input)
    (others lost : ℕ)
    → IsSingle n s (task_count n t + others) lost
    → let o = Tasks.advance_task c now s t input in
      IsSingle n o.state (task_count n o.task + others) (lost + o.lost)
unfolding Tasks.advance_task Tasks.expire
advance_task-IsSingle n c now s t input others lost h =
    ground (arith, idle_count-append n s.idle (stored_by t), idle_count-unexpired n c now s.idle)

-- Whatever the tasks of a pool do, in any order, a session is in one place at most: idle, or with one
-- task. So no two callers have the same session.
pub run_single :
    (c : PoolConfig) (clock : ℕ) (events : List System.Event) (n : ℕ)
    → let y = System.run_pool c (System.new_pool clock) events in
      idle_count n y.state.idle + sum_tasks (task_count n) y.tasks ≤ 1
run_single c clock events n =
    let h =
      run_pool-Holds c (task_count n) (IsSingle n) (λ d. refl) refl refl (advance_task-IsSingle n c)
        (System.new_pool clock) events (ground arith) in
    ground (arith, h)
