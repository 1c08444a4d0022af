-- ===== src/Pool/Tests.antt =====
-- Runs of the pool, and the theorems at concrete pools.
use babar.Prelude.{◌+◌, List, [], ◌∷◌, ◌≡◌, ◌≤◌, refl, true, false, length, get_elem?, some, none}
use babar.Pool.Config.{PoolConfig, ping, is_expired}
use babar.Pool.Tasks
use babar.Pool.System
use babar.Pool.Invariants.{sum_tasks}
use babar.Pool.Slots.{slots, count_abrupt, run_pool-slots}
use babar.Pool.Sessions.{idle_count, task_count, run_single}
use babar.Pool.Closing.{is_turned_away, run_drained, run_turns_away}

abbrev small_pool : PoolConfig
small_pool = record {
  min_idle = 1;
  max_size = 2;
  acquire_timeout = 30;
  idle_timeout = none;
  max_lifetime = some 100;
  health_check = ping;
}

-- The pool opens a session; a caller gets it after the check, gives it back, and another connects.
abbrev served : List System.Event
served =
    System.runs 0 Tasks.go
    ∷ System.runs 0 Tasks.succeeded
    ∷ System.runs 0 Tasks.go
    ∷ System.acquires
    ∷ System.runs 1 Tasks.go
    ∷ System.runs 1 Tasks.go
    ∷ System.runs 1 Tasks.go
    ∷ System.runs 1 Tasks.succeeded
    ∷ System.acquires
    ∷ System.runs 2 Tasks.go
    ∷ System.runs 2 Tasks.go
    ∷ System.runs 2 Tasks.go
    ∷ System.runs 2 Tasks.cancels
    ∷ []

-- The second caller went away while it connected: its slot is lost, and the pool is full for good.
leaked : (System.run_pool small_pool (System.new_pool 0) served).lost ≡ 1
unfolding System.run_pool System.pool_step Tasks.advance_task is_expired
leaked = refl

first_connection :
    get_elem? (System.run_pool small_pool (System.new_pool 0) served).tasks 1
    ≡ some (Tasks.connection 0 0 false)
unfolding System.run_pool System.pool_step Tasks.advance_task is_expired
first_connection = refl

run_pool-slots_example :
    let y = System.run_pool small_pool (System.new_pool 0) served in
    (y.state.total ≡ length y.state.idle + sum_tasks slots y.tasks + y.lost)
    × (y.state.total ≤ 2)
    × (y.lost ≤ count_abrupt served)
run_pool-slots_example = run_pool-slots small_pool 0 served

run_single_example :
    let y = System.run_pool small_pool (System.new_pool 0) served in
    idle_count 0 y.state.idle + sum_tasks (task_count 0) y.tasks ≤ 1
run_single_example = run_single small_pool 0 served 0

-- A session is idle, another with a caller, and a `close` has set the flag.
abbrev closes_it : List System.Event
closes_it =
    System.runs 0 Tasks.go
    ∷ System.runs 0 Tasks.succeeded
    ∷ System.runs 0 Tasks.go
    ∷ System.closes
    ∷ System.runs 1 Tasks.go
    ∷ []

-- It takes the sessions; a later `close` is dropped.
abbrev closes_again : List System.Event
closes_again = System.closes ∷ System.runs 2 Tasks.go ∷ System.runs 2 Tasks.cancels ∷ []

run_drained_example :
    let y = System.run_pool small_pool (System.new_pool 0) closes_it in
    let z =
      System.run_pool small_pool
        (System.pool_step small_pool y (System.runs 1 Tasks.go))
        closes_again in
    (z.state.closed ≡ true) × (length z.state.idle ≡ 0)
unfolding System.run_pool System.pool_step Tasks.advance_task is_expired
run_drained_example = run_drained small_pool 0 closes_it 1 closes_again refl

abbrev closed_pool : System.System
closed_pool = record {
  state = record { total = 1; idle = []; closed = true; opened = 1 };
  tasks = Tasks.connection 0 0 false ∷ [];
  lost = 0;
  clock = 7;
}

abbrev comes_back : List System.Event
comes_back =
    System.runs 0 Tasks.drops
    ∷ System.runs 1 Tasks.go
    ∷ System.runs 0 (Tasks.returns_in b'I' true)
    ∷ []

run_turns_away_example :
    let z =
      System.run_pool small_pool
        (System.pool_step small_pool closed_pool System.acquires)
        comes_back in
    (z.state.closed ≡ true)
    × (t : Tasks.Task) × (get_elem? z.tasks 1 ≡ some t)
    × (is_turned_away t ≡ true)
run_turns_away_example = run_turns_away small_pool closed_pool comes_back refl
