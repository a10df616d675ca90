-- ===== src/Scheduler/Spawn/Laws.antt =====
-- What a fork makes, and where.
use ferrugem.Prelude.{ℕ, ◌<◌, ◌≡◌, ◌≢◌, ◌⊎◌, Option, none, some, List, ◌∷◌}
use ferrugem.Process.Fds.{FdTable}
use ferrugem.Process.Fds.Counts.{Counted}
use ferrugem.Process.Task.{Task, ready, zombie}
use ferrugem.Scheduler.{Scheduler, max_tasks, task_at}

-- A slot with a task that is not a zombie, and one that is empty or a zombie's.
abbrev pub Taken : Option Task → Type 0
Taken o = (t : Task) × (o ≡ some t) × (t.state ≢ zombie)

abbrev pub Free : Option Task → Type 0
Free o = (o ≡ none) ⊎ ((t : Task) × (o ≡ some t) × (t.state ≡ zombie))

-- `s'` is `s` with a child of `parent` in slot `i`, the lowest free one from 1 on.
pub record Forked (s : Scheduler) (parent : Task) (child_pt fs_base : ℕ) (others : List FdTable)
    (i : ℕ) (s' : Scheduler) : Type 0 where
  pub above : 0 < i
  pub below : i < max_tasks
  pub free : Free (task_at s.tasks i)
  pub lowest : (j : ℕ) → 0 < j → j < i → Taken (task_at s.tasks j)
  pub kept : (j : ℕ) → i ≢ j → task_at s'.tasks j ≡ task_at s.tasks j
  pub child : Task
  pub placed : task_at s'.tasks i ≡ some child
  pub starts : child.state ≡ ready
  pub own_pid : child.pid ≡ s.next_pid
  pub of_parent : child.ppid ≡ parent.pid
  pub descriptors : child.fd_table ≡ parent.fd_table
  pub directory : child.cwd ≡ parent.cwd
  pub heap : child.heap_brk ≡ parent.heap_brk
  pub space : child.page_table_phys ≡ child_pt
  pub tls : child.fs_base ≡ fs_base
  pub counted : Counted s'.pool (child.fd_table ∷ parent.fd_table ∷ others)

-- What a fork may come to: nothing, with every slot taken, or a child.
abbrev pub Forks :
    (s : Scheduler)
    → (parent : Task) → (child_pt fs_base : ℕ) → List FdTable
    → Option ℕ × Scheduler
    → Type 0
Forks s parent child_pt fs_base others (slot, s') =
    ((slot ≡ none) × (s' ≡ s) × ((j : ℕ) → 0 < j → j < max_tasks → Taken (task_at s.tasks j)))
    ⊎ ((i : ℕ) × (slot ≡ some i) × Forked s parent child_pt fs_base others i s')
