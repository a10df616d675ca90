-- ===== src/Scheduler/Wake.antt =====
-- Blocking and waking in kernel/src/scheduler/mod.rs: the waiters for a child, for the terminal and
-- for a pipe. A function that goes on to `schedule` is modelled up to that call.
pub mod Laws
use ferrugem.Prelude.{
  ℕ, ◌+◌, ◌-◌, ◌^◌, Bool, true, false, ◌&&◌, ◌||◌, not, Option, none, some, List, [], ◌∷◌, map,
  ◌==◌, if◌then◌else◌, leb, get_or, set, find_in,
}
use ferrugem.Ipc.Pool.{Pool, pipe_has_data, pipe_write_open}
use ferrugem.Process.Signal.{sigkill}
use ferrugem.Process.Task.{Task, ready, blocked, is_blocked, is_zombie, raise_signal}
use ferrugem.Scheduler.{Scheduler, Table, max_tasks, task_at, map_task, update_task}

abbrev pub u64_max : ℕ
u64_max = 2 ^ 64 - 1

-- `if t.state == Blocked { t.state = Ready; }`.
unfoldable pub unblock : Task → Task
unblock t = if is_blocked t.state then record t { state = ready } else t

-- The body of the loop of `wake_child_waiters`.
unfoldable pub wake_child : (exiting_pid parent_pid : ℕ) → Task → Task
wake_child exiting_pid parent_pid t =
    if is_blocked t.state
      && (t.waiting_for_pid == exiting_pid || (t.waiting_for_pid == u64_max && t.pid == parent_pid))
    then record t { waiting_for_pid = 0; state = ready }
    else t

unfoldable pub wake_child_waiters : (exiting_pid parent_pid : ℕ) → Table → Table
wake_child_waiters exiting_pid parent_pid = map (map_task (wake_child exiting_pid parent_pid))

abbrev pub has_pid : ℕ → Option Task → Bool
has_pid pid none = false
has_pid pid (some t) = t.pid == pid

-- The first task with that pid gets the signal.
unfoldable pub signal_parent : (parent_pid sig : ℕ) → Table → Table
signal_parent parent_pid sig tasks =
    elim (find_in 0 max_tasks (λ slot. has_pid parent_pid (task_at tasks slot))) [
      | none ↦ tasks
      | some slot ↦ update_task (λ t. (raise_signal sig t).0) slot tasks
    ]

-- `take()` of a waiter: wake its task.
unfoldable pub wake_waiter : Option ℕ → Table → Table
wake_waiter none tasks = tasks
wake_waiter (some slot) tasks = update_task unblock slot tasks

-- `has_input` is what the keyboard and serial drivers say.
unfoldable pub block_on_tty : (has_input : Bool) → Scheduler → Scheduler
block_on_tty has_input s = if has_input then s else record s {
  tty_waiter = some s.current;
  tasks = update_task (λ t. record t { state = blocked }) s.current s.tasks;
}

unfoldable pub wake_tty_waiter : Scheduler → Scheduler
wake_tty_waiter s = record s { tty_waiter = none; tasks = wake_waiter s.tty_waiter s.tasks }

-- `PIPE_WAITERS[pipe_idx]`.
abbrev pub waiter_at : List (Option ℕ) → ℕ → Option ℕ
waiter_at waiters pipe_idx = get_or waiters pipe_idx none

-- The second component says whether the caller goes on to `schedule`.
unfoldable pub block_on_pipe : (pipe_idx : ℕ) → Scheduler → Scheduler × Bool
block_on_pipe pipe_idx s =
    if not (pipe_has_data pipe_idx s.pool) && pipe_write_open pipe_idx s.pool
    then (
      record s {
        pipe_waiters = set s.pipe_waiters pipe_idx (some s.current);
        tasks = update_task (λ t. record t { state = blocked }) s.current s.tasks;
      },
      true,
    )
    else (s, false)

unfoldable pub wake_pipe_waiter : (pipe_idx : ℕ) → Scheduler → Scheduler
wake_pipe_waiter pipe_idx s = record s {
  pipe_waiters = set s.pipe_waiters pipe_idx none;
  tasks = wake_waiter (waiter_at s.pipe_waiters pipe_idx) s.tasks;
}

-- The loop of `wake_closed_pipe_readers` from pipe `pipe_idx` on.
unfoldable pub wake_closed_from : ℕ → Pool → List (Option ℕ) → Table → List (Option ℕ) × Table
wake_closed_from pipe_idx pool [] tasks = ([], tasks)
wake_closed_from pipe_idx pool (waiter ∷ rest) tasks =
    let closed = not (pipe_write_open pipe_idx pool) in
    let (rest', tasks') =
      wake_closed_from (pipe_idx + 1) pool rest
        (if closed then wake_waiter waiter tasks else tasks) in
    ((if closed then none else waiter) ∷ rest', tasks')

unfoldable pub wake_closed_pipe_readers : Scheduler → Scheduler
unfolding wake_closed_from
wake_closed_pipe_readers s =
    let (waiters, tasks) = wake_closed_from 0 s.pool s.pipe_waiters s.tasks in
    record s { pipe_waiters = waiters; tasks = tasks }

abbrev pub live_with_pid : ℕ → Option Task → Bool
live_with_pid pid none = false
live_with_pid pid (some t) = t.pid == pid && not (is_zombie t.state)

unfoldable pub raise_signal_to_pid : (target_pid sig : ℕ) → Scheduler → Scheduler × Bool
raise_signal_to_pid target_pid sig s =
    elim (find_in 0 max_tasks (λ slot. live_with_pid target_pid (task_at s.tasks slot))) [
      | none ↦ (s, false)
      | some slot ↦ (
        record s { tasks = update_task (λ t. unblock (raise_signal sig t).0) slot s.tasks },
        true,
      )
    ]

abbrev pub is_live : Option Task → Bool
is_live none = false
is_live (some t) = not (is_zombie t.state)

unfoldable pub kill_task : (slot : ℕ) → Scheduler → Scheduler × Bool
kill_task slot s =
    if slot == 0 || leb max_tasks slot || slot == s.current
    then (s, false)
    else if is_live (task_at s.tasks slot)
    then (
      record s { tasks = update_task (λ t. unblock (raise_signal sigkill t).0) slot s.tasks },
      true,
    )
    else (s, false)
