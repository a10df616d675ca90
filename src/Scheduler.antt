-- ===== src/Scheduler.antt =====
-- kernel/src/scheduler/mod.rs: the task table and the static state beside it. `TASKS`, `CURRENT`
-- and the other statics are the fields of one record; so are the pipe pool and `NEXT_PID`, which
-- the scheduler's calls change. A function that mutates them returns the record afterwards.
pub mod Table
pub mod Pick
pub mod Wake
pub mod Exit
pub mod Current
pub mod Spawn
pub mod Switch
pub mod Stack
mod Tests
use ferrugem.Prelude.{
  ℕ, Bool, true, false, ◌||◌, Option, none, some, List, [], ◌∷◌, get_or, set, replicate,
  if◌then◌else◌,
}
use ferrugem.Ipc.Pool.{Pool, max_pipes}
use ferrugem.Ipc.Pool
use ferrugem.Process.Task
use ferrugem.Process.Task.{Task, is_zombie}

abbrev pub max_tasks : ℕ
max_tasks = 64

abbrev pub Table : Type 0
Table = List (Option Task)

pub record Scheduler : Type 0 where
  pub tasks : Table
  pub guard_phys : List ℕ
  pub current : ℕ
  pub tick_count : ℕ
  pub tty_waiter : Option ℕ
  pub pipe_waiters : List (Option ℕ)
  pub pool : Pool
  pub next_pid : ℕ

-- `TASKS[slot]`.
abbrev pub task_at : Table → ℕ → Option Task
task_at tasks slot = get_or tasks slot none

abbrev pub map_task : (Task → Task) → Option Task → Option Task
map_task f none = none
map_task f (some t) = some (f t)

-- `if let Some(t) = TASKS[slot].as_mut() { … }`.
unfoldable pub update_task : (Task → Task) → ℕ → Table → Table
update_task f slot tasks = elim (task_at tasks slot) [
  | none ↦ tasks
  | some t ↦ set tasks slot (some (f t))
]

-- The statics as the kernel starts, and `init`.
unfoldable pub boot : Scheduler
boot = record {
  tasks = set (replicate max_tasks none) 0 (some Task.idle);
  guard_phys = replicate max_tasks 0;
  current = 0;
  tick_count = 0;
  tty_waiter = none;
  pipe_waiters = replicate max_pipes none;
  pool = Pool.initial;
  next_pid = 1;
}

-- A slot that a new task may take: an empty one, or a zombie's.
abbrev pub is_vacant : Option Task → Bool
is_vacant none = true
is_vacant (some t) = is_zombie t.state
