-- ===== src/Scheduler/Switch/Resume.antt =====
-- FS.base over a switch to another task and back.
use ferrugem.Prelude.{ℕ, ◌≡◌, refl, ◌≢◌, false, some, ◌==◌, arith}
use ferrugem.Process.Task.{Task}
use ferrugem.Scheduler.{Scheduler, task_at, update_task}
use ferrugem.Scheduler.Table.{task_at-update}
use ferrugem.Scheduler.Pick.{pick}
use ferrugem.Scheduler.Switch.{Cpu, switch_out, resume}

-- Where the current task switches to another, in slot `a`, which had itself switched to the current
-- task, that task goes on with the FS.base that the current task had, whatever its own was.
pub resume-switch_out :
    (kernel_pt a : ℕ) (cpu : Cpu) (s : Scheduler) (ta tb : Task)
    → a ≢ s.current
    → task_at s.tasks a ≡ some ta
    → task_at s.tasks s.current ≡ some tb
    → pick s.tasks s.current ≡ a
    → let (to, cpu', s') = switch_out kernel_pt cpu s in
      (to ≡ some a) × (s'.current ≡ a) × ((resume s.current cpu' s').fs_base ≡ cpu.fs_base)
unfolding switch_out resume
resume-switch_out kernel_pt a cpu s ta tb ne at_a at_b chosen =
    let saved : task_at (update_task (λ p. record p { fs_base = cpu.fs_base }) s.current s.tasks)
          s.current
        ≡ some (record tb { fs_base = cpu.fs_base }) =
      ground (
        arith,
        task_at-update (λ p. record p { fs_base = cpu.fs_base }) s.current s.tasks s.current,
        at_b,
      ) in
    let apart : (a == s.current) ≡ false = ground arith in
    rw (chosen, apart, at_a, chosen) (refl, refl, rw saved refl)
