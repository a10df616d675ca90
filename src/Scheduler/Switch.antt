-- ===== src/Scheduler/Switch.antt =====
-- `schedule` of kernel/src/scheduler/mod.rs in two halves: up to its call of `context_switch`, and
-- what the suspended call does once it goes on. The registers that `context_switch` saves on the
-- kernel stacks, the canary and the interrupt flag are not modelled.
pub mod Resume
use ferrugem.Prelude.{ℕ, Bool, true, false, Option, none, some, ◌==◌, if◌then◌else◌}
use ferrugem.Process.Task.{Task}
use ferrugem.Scheduler.{Scheduler, task_at, update_task}
use ferrugem.Scheduler.Pick.{pick}
use ferrugem.Scheduler.Current.{field_of}

-- What `schedule` sets of the processor.
pub record Cpu : Type 0 where
  pub kernel_stack : ℕ
  pub address_space : ℕ
  pub fs_base : ℕ

-- For a slot that holds a task, as the chosen one does; `kernel_pt` is the kernel's page table.
abbrev pub entered : (kernel_pt : ℕ) → Task → Cpu → Cpu
entered kernel_pt t cpu = record cpu {
  kernel_stack = if t.is_user then t.stack_top else 0;
  address_space = if t.page_table_phys == 0 then kernel_pt else t.page_table_phys;
}

-- The slot that the call switches to, which stays in its local `next`, and the state then.
unfoldable pub switch_out : (kernel_pt : ℕ) → Cpu → Scheduler → Option ℕ × Cpu × Scheduler
switch_out kernel_pt cpu s =
    let next = pick s.tasks s.current in
    let out : Option ℕ × Cpu × Scheduler = elim (task_at s.tasks next) [
      | none ↦ (none, cpu, s)
      | some t ↦ (
        some next,
        entered kernel_pt t cpu,
        record s {
          current = next;
          tasks = update_task (λ p. record p { fs_base = cpu.fs_base }) s.current s.tasks;
        },
      )
    ] in
    if next == s.current then (none, cpu, s) else out

-- The suspended call whose local `next` is given goes on.
unfoldable pub resume : (next : ℕ) → Cpu → Scheduler → Cpu
resume next cpu s = record cpu { fs_base = field_of (λ t. t.fs_base) (task_at s.tasks next) }
