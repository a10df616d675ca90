-- ===== src/Scheduler/Pick.antt =====
-- `schedule`'s choice of the next task: the round robin over slots 1 to 63.
pub mod Fair
use ferrugem.Prelude.{
  ℕ, ◌+◌, ◌-◌, ◌%◌, Bool, true, false, Option, none, some, ◌==◌, if◌then◌else◌, find_in,
}
use ferrugem.Process.Task.{Task, is_ready}
use ferrugem.Scheduler.{Table, task_at, max_tasks}

unfoldable pub search_start : ℕ → ℕ
search_start current = if current == 0 then 1 else current % (max_tasks - 1) + 1

-- The slot that round `i` of the search looks at.
unfoldable pub slot_of_round : ℕ → ℕ → ℕ
slot_of_round start i = (start - 1 + i) % (max_tasks - 1) + 1

abbrev pub runnable : Option Task → Bool
runnable none = false
runnable (some t) = is_ready t.state

-- 0, the idle task, if no other is ready.
unfoldable pub pick : Table → ℕ → ℕ
unfolding search_start slot_of_round
pick tasks current =
    let start = search_start current in
    elim (find_in 0 (max_tasks - 1) (λ i. runnable (task_at tasks (slot_of_round start i)))) [
      | none ↦ 0
      | some i ↦ slot_of_round start i
    ]
