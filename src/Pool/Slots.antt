-- ===== src/Pool/Slots.antt =====
-- Every slot that `total` counts is an idle session's, a task's, or lost.
use babar.Prelude.{
  ℕ, ◌+◌, ◌≤◌, ◌≡◌, refl, List, [], ◌∷◌, none, some, Bool, true, false, length, length-append,
  get_elem?, if◌then◌else◌, arith,
}
use babar.Pool.Config.{PoolConfig}
use babar.Pool.Tasks
use babar.Pool.System
use babar.Pool.Invariants.{sum_tasks, stored_by, length-unexpired, run_pool-Holds}

abbrev pub slots : Tasks.Task → ℕ
slots (Tasks.checking d i) = 1
slots (Tasks.pinging d i) = 1
slots (Tasks.dropping_expired d i) = 1
slots (Tasks.dropping_unhealthy d i e) = 1
slots (Tasks.connecting d) = 1
slots (Tasks.giving_up e) = 1
slots (Tasks.connection n t b) = 1
slots (Tasks.recycling n t b) = 1
slots (Tasks.discarding n f) = 1
slots (Tasks.storing i f) = 1
slots Tasks.opening = 1
slots Tasks.closing_slot = 1
slots t = 0

advance_task-slots :
    (c : PoolConfig) (now : ℕ) (s : Tasks.PoolState) (t : Tasks.Task) (input : Tasks.Input)
    (others : ℕ)
    → s.total ≡ length s.idle + slots t + others
    → let o = Tasks.advance_task c now s t input in
      o.state.total ≡ length o.state.idle + slots o.task + o.lost + others
unfolding Tasks.advance_task Tasks.expire
advance_task-slots c now s t input others h =
    ground (arith, length-append s.idle (stored_by t), length-unexpired c now s.idle)

-- No section makes more slots than the pool may have.
advance_task-total_le :
    (c : PoolConfig) (now : ℕ) (s : Tasks.PoolState) (t : Tasks.Task) (input : Tasks.Input)
    → s.total ≤ c.max_size
    → (Tasks.advance_task c now s t input).state.total ≤ c.max_size
unfolding Tasks.advance_task Tasks.expire
advance_task-total_le c now s t input h = ground (arith, length-unexpired c now s.idle)

-- Every slot is owned, and there are no more than the pool may have.
abbrev IsAccounted : PoolConfig → Tasks.PoolState → (held lost : ℕ) → Type 0
IsAccounted c s held lost = (s.total ≡ length s.idle + held + lost) × (s.total ≤ c.max_size)

advance_task-IsAccounted :
    (c : PoolConfig) (now : ℕ) (s : Tasks.PoolState) (t : Tasks.Task) (input : Tasks.Input)
    (others lost : ℕ)
    → IsAccounted c s (slots t + others) lost
    → let o = Tasks.advance_task c now s t input in
      IsAccounted c o.state (slots o.task + others) (lost + o.lost)
advance_task-IsAccounted c now s t input others lost (e, l) = (
  omega (arith, advance_task-slots c now s t input (others + lost) (omega (arith, e))),
  advance_task-total_le c now s t input l,
)

-- The events that drop a future where it awaits, or a connection outside of a runtime.
abbrev pub is_abrupt : System.Event → Bool
is_abrupt (System.runs i Tasks.cancels) = true
is_abrupt (System.runs i Tasks.drops_outside) = true
is_abrupt e = false

abbrev pub count_abrupt : List System.Event → ℕ
count_abrupt [] = 0
count_abrupt (e ∷ events) = (if is_abrupt e then 1 else 0) + count_abrupt events

advance_task-lost_le :
    (c : PoolConfig) (now : ℕ) (s : Tasks.PoolState) (t : Tasks.Task) (input : Tasks.Input) (i : ℕ)
    → (Tasks.advance_task c now s t input).lost ≤ (if is_abrupt (System.runs i input) then 1 else 0)
unfolding Tasks.advance_task
advance_task-lost_le c now s t input i = ground arith

pool_step-lost_le :
    (c : PoolConfig) (y : System.System) (e : System.Event)
    → (System.pool_step c y e).lost ≤ y.lost + (if is_abrupt e then 1 else 0)
unfolding System.pool_step
pool_step-lost_le c y System.acquires = omega arith
pool_step-lost_le c y System.closes = omega arith
pool_step-lost_le c y System.ticks = ground arith
pool_step-lost_le c y (System.time_passes n) = omega arith
pool_step-lost_le c y (System.runs i input) =
    elim (get_elem? y.tasks i)
      as (λ o.
        (System.run_task c y i input o).lost
        ≤ y.lost + (if is_abrupt (System.runs i input) then 1 else 0)) [
          | none ↦ omega arith
          | some t ↦ omega (arith, advance_task-lost_le c y.clock y.state t input i)
        ]

run_pool-lost_le :
    (c : PoolConfig) (y : System.System) (events : List System.Event)
    → (System.run_pool c y events).lost ≤ y.lost + count_abrupt events
unfolding System.run_pool
run_pool-lost_le c y [] = omega arith
run_pool-lost_le c y (e ∷ events) =
    omega (arith, run_pool-lost_le c (System.pool_step c y e) events, pool_step-lost_le c y e)

-- Whatever the tasks of a pool do, in any order: `total` is the number of the idle sessions, of the slots
-- that tasks hold and of the lost ones; it is at most `max_size`; and no more slots are lost than futures
-- were dropped where they awaited and connections outside of a runtime.
pub run_pool-slots :
    (c : PoolConfig) (clock : ℕ) (events : List System.Event)
    → let y = System.run_pool c (System.new_pool clock) events in
      (y.state.total ≡ length y.state.idle + sum_tasks slots y.tasks + y.lost)
      × (y.state.total ≤ c.max_size)
      × (y.lost ≤ count_abrupt events)
run_pool-slots c clock events =
    let (e, l) =
      run_pool-Holds c slots (IsAccounted c) (λ d. refl) refl refl (advance_task-IsAccounted c)
        (System.new_pool clock) events (omega arith, omega arith) in
    (e, l, omega (arith, run_pool-lost_le c (System.new_pool clock) events))
