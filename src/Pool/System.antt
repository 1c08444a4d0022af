-- ===== src/Pool/System.antt =====
-- A pool with all the tasks that work on it, interleaved in any order.
use babar.Prelude.{
  ℕ, zero, suc, ◌+◌, List, [], ◌∷◌, ◌++◌, Option, none, some, false, if◌then◌else◌, get_elem?,
}
use babar.Pool.Config.{PoolConfig}
use babar.Pool.Tasks.{PoolState, Task, Input, acquiring, ticking, filling, closing, advance_task}

-- `lost` counts the slots that no task owns and that `total` still counts.
pub record System : Type 0 where
  pub state : PoolState
  pub tasks : List Task
  pub lost : ℕ
  pub clock : ℕ

pub data Event : Type 0 where
  -- A caller starts to acquire or closes the pool; the maintenance task wakes up.
  acquires closes ticks : Event
  time_passes : ℕ → Event
  -- The task at an index goes on.
  runs : ℕ → Input → Event

-- `Pool::new`, whose `ensure_min_idle` is the first task.
abbrev pub new_pool : ℕ → System
new_pool clock = record {
  state = record { total = 0; idle = []; closed = false; opened = 0 };
  tasks = filling ∷ [];
  lost = 0;
  clock = clock;
}

abbrev pub set_task : List Task → ℕ → Task → List Task
set_task [] i t = []
set_task (x ∷ tasks) zero t = t ∷ tasks
set_task (x ∷ tasks) (suc i) t = x ∷ set_task tasks i t

module _ (c : PoolConfig) where
  abbrev pub run_task : System → ℕ → Input → Option Task → System
  run_task y i input none = y
  run_task y i input (some t) =
      let o = advance_task c y.clock y.state t input in
      record y { state = o.state; tasks = set_task y.tasks i o.task; lost = y.lost + o.lost }

  unfoldable pub pool_step : System → Event → System
  pool_step y acquires = record y {
    tasks = y.tasks ++ (acquiring (y.clock + c.acquire_timeout) ∷ []);
  }
  pool_step y closes = record y { tasks = y.tasks ++ (closing ∷ []) }
  pool_step y ticks = if y.state.closed then y else record y { tasks = y.tasks ++ (ticking ∷ []) }
  pool_step y (time_passes n) = record y { clock = y.clock + n }
  pool_step y (runs i input) = run_task y i input (get_elem? y.tasks i)

  unfoldable pub run_pool : System → List Event → System
  run_pool y [] = y
  run_pool y (e ∷ events) = run_pool (pool_step y e) events
