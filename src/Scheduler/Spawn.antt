-- ===== src/Scheduler/Spawn.antt =====
-- New tasks in kernel/src/scheduler/mod.rs: the choice of a slot, `spawn`, and the part of
-- `spawn_fork` that follows the allocations. The kernel stack, the page table and FS.base that the
-- architecture and the page allocator give are arguments.
pub mod Laws
use ferrugem.Prelude.{ℕ, ◌+◌, ◌-◌, ◌*◌, Option, none, some, List, [], ◌∷◌, set, find_in}
use ferrugem.Process.Fds.{retain_all}
use ferrugem.Process.Task.{Task, new_user}
use ferrugem.Scheduler.{Scheduler, Table, max_tasks, task_at, is_vacant}
use ferrugem.Scheduler.Current.{current_task, current_pid, current_heap_brk, current_cwd}

abbrev pub stack_size : ℕ
stack_size = 8 * 4096

abbrev pub guard_size : ℕ
guard_size = 4096

-- The lowest vacant slot from 1 on.
unfoldable pub vacant_slot : Table → Option ℕ
vacant_slot tasks = find_in 1 (max_tasks - 1) (λ i. is_vacant (task_at tasks i))

unfoldable pub spawn : Task → Scheduler → Option ℕ × Scheduler
unfolding vacant_slot
spawn task s = elim (vacant_slot s.tasks) [
  | none ↦ (none, s)
  | some i ↦ (some i, record s { tasks = set s.tasks i (some task) })
]

-- `kframes` is the address of the guard page, below the kernel stack.
unfoldable pub spawn_fork :
    (kframes child_pt kernel_sp parent_fs_base : ℕ) → Scheduler → Option ℕ × Scheduler
unfolding vacant_slot
spawn_fork kframes child_pt kernel_sp parent_fs_base s = elim (current_task s) [
  | none ↦ (none, s)
  | some parent ↦ elim (vacant_slot s.tasks) [
    | none ↦ (none, s)
    | some i ↦
        let stack_top = kframes + guard_size + stack_size in
        let (fresh, next_pid) = new_user kernel_sp stack_top child_pt (current_pid s) s.next_pid in
        let child = record fresh {
          heap_brk = current_heap_brk s;
          fd_table = parent.fd_table;
          cwd = current_cwd s;
          fs_base = parent_fs_base;
        } in
        (
          some i,
          record s {
            tasks = set s.tasks i (some child);
            guard_phys = set s.guard_phys i kframes;
            pool = retain_all parent.fd_table s.pool;
            next_pid = next_pid;
          },
        )
  ]
]
