-- ===== src/Scheduler/Current.antt =====
-- What kernel/src/scheduler/mod.rs does with the current task's descriptors and fields for the
-- system calls, and its queries.
pub mod Miscount
use ferrugem.Prelude.{
  ℕ, zero, suc, ◌+◌, ◌-◌, Bool, true, false, not, Option, none, some, List, [], ◌∷◌, set, length,
  if◌then◌else◌,
}
use ferrugem.Process.Fds.{FdEntry, FdTable}
use ferrugem.Process.Fds
use ferrugem.Process.Task.{Task, is_zombie}
use ferrugem.Scheduler.{Scheduler, Table, task_at, update_task}
use ferrugem.Scheduler.Wake.{is_live}

-- `TASKS[CURRENT]`.
abbrev pub current_task : Scheduler → Option Task
current_task s = task_at s.tasks s.current

abbrev pub with_fds : FdTable → Scheduler → Scheduler
with_fds fds s = record s {
  tasks = update_task (λ t. record t { fd_table = fds }) s.current s.tasks;
}

unfoldable pub current_fd_get : ℕ → Scheduler → Option FdEntry
current_fd_get fd s = elim (current_task s) [ none ↦ none | some t ↦ Fds.get fd t.fd_table ]

unfoldable pub current_fd_alloc : FdEntry → Scheduler → Option ℕ × Scheduler
current_fd_alloc entry s = elim (current_task s) [
  | none ↦ (none, s)
  | some t ↦ let (fd, fds) = Fds.alloc entry t.fd_table in (fd, with_fds fds s)
]

unfoldable pub current_fd_close : ℕ → Scheduler → Option FdEntry × Scheduler
current_fd_close fd s = elim (current_task s) [
  | none ↦ (none, s)
  | some t ↦ let (old, fds) = Fds.close fd t.fd_table in (old, with_fds fds s)
]

unfoldable pub current_fd_dup : (oldfd : ℕ) → Scheduler → Option ℕ × Scheduler
unfolding current_fd_get current_fd_alloc
current_fd_dup oldfd s = elim (current_fd_get oldfd s) [
  | none ↦ (none, s)
  | some entry ↦ current_fd_alloc entry s
]

unfoldable pub current_fd_dup2 : (oldfd newfd : ℕ) → Scheduler → Option ℕ × Scheduler
current_fd_dup2 oldfd newfd s = elim (current_task s) [
  | none ↦ (none, s)
  | some t ↦ elim (Fds.get oldfd t.fd_table) [
    | none ↦ (none, s)
    | some entry ↦
        let (fd, fds, pool) = Fds.alloc_at newfd entry t.fd_table s.pool in
        (fd, record (with_fds fds s) { pool = pool })
  ]
]

unfoldable pub current_fd_set_offset : (fd offset : ℕ) → Scheduler → Scheduler
current_fd_set_offset fd offset s = record s {
  tasks =
      update_task (λ t. record t { fd_table = Fds.set_offset fd offset t.fd_table }) s.current
        s.tasks;
}

unfoldable pub current_fd_set_dir_pos : (fd pos : ℕ) → Scheduler → Scheduler
current_fd_set_dir_pos fd pos s = record s {
  tasks =
      update_task (λ t. record t { fd_table = Fds.set_dir_pos fd pos t.fd_table }) s.current
        s.tasks;
}

-- A field of a task, 0 if there is none.
abbrev pub field_of : (Task → ℕ) → Option Task → ℕ
field_of f none = 0
field_of f (some t) = f t

unfoldable pub current_cwd : Scheduler → ℕ
current_cwd s = field_of (λ t. t.cwd) (current_task s)

unfoldable pub set_cwd : ℕ → Scheduler → Scheduler
set_cwd inode s = record s { tasks = update_task (λ t. record t { cwd = inode }) s.current s.tasks }

unfoldable pub current_heap_brk : Scheduler → ℕ
current_heap_brk s = field_of (λ t. t.heap_brk) (current_task s)

unfoldable pub current_page_table_phys : Scheduler → ℕ
current_page_table_phys s = field_of (λ t. t.page_table_phys) (current_task s)

unfoldable pub set_heap_brk : ℕ → Scheduler → Scheduler
set_heap_brk addr s = record s {
  tasks = update_task (λ t. record t { heap_brk = addr }) s.current s.tasks;
}

unfoldable pub get_fs_base : Scheduler → ℕ
get_fs_base s = field_of (λ t. t.fs_base) (current_task s)

unfoldable pub set_fs_base : ℕ → Scheduler → Scheduler
set_fs_base val s = record s {
  tasks = update_task (λ t. record t { fs_base = val }) s.current s.tasks;
}

unfoldable pub current_ppid : Scheduler → ℕ
current_ppid s = field_of (λ t. t.ppid) (current_task s)

unfoldable pub current_pid : Scheduler → ℕ
current_pid s = field_of (λ t. t.pid) (current_task s)

unfoldable pub task_pid : ℕ → Scheduler → ℕ
task_pid slot s = field_of (λ t. t.pid) (task_at s.tasks slot)

live_in : Table → ℕ
live_in [] = 0
live_in (o ∷ rest) = (if is_live o then 1 else 0) + live_in rest

-- The tasks of the slots from 1 on that are not zombies.
unfoldable pub task_count : Scheduler → ℕ
unfolding live_in
task_count s = elim s.tasks [ [] ↦ 0 | idle ∷ rest ↦ live_in rest ]
