-- ===== src/Scheduler/Tests.antt =====
-- The scheduler at concrete inputs.
use ferrugem.Prelude.{
  ℕ, ◌%◌, ◌*◌, zero, suc, ◌<◌, ◌≡◌, refl, ◌≢◌, inr, false, none, some, [], ◌∷◌, set, replicate,
  find_in, arith,
}
use ferrugem.Ipc.Pool.{max_pipes, initial}
use ferrugem.Process.Task.{Task, idle, ready, blocked}
use ferrugem.Process.Fds
use ferrugem.Process.Fds.Counts.{Counted}
use ferrugem.Process.Fds.Tests.{with_pipe, one_pipe, one_pipe-Counted}
use ferrugem.Scheduler.Current.{current_task, current_fd_dup}
use ferrugem.Scheduler.Current.Miscount.{current_fd_dup-miscounts}
use ferrugem.Scheduler.Switch.{switch_out, resume}
use ferrugem.Scheduler.Switch.Resume.{resume-switch_out}
use ferrugem.Scheduler.{Scheduler, max_tasks, task_at}
use ferrugem.Scheduler.Pick.{search_start, slot_of_round, pick}
use ferrugem.Scheduler.Pick.Fair.{Picks, pick-Picks, after_calls, bounded_waiting}
use ferrugem.Scheduler.Wake.{u64_max}
use ferrugem.Scheduler.Exit.{exit_current, waitpid_pass, reaped, is_reapable}
use ferrugem.Scheduler.Exit.Laws.{exit_current_wakes, waitpid-exit_current}

abbrev parent_task : Task
parent_task = record idle { pid = 1; state = blocked; waiting_for_pid = u64_max }

abbrev child_task : Task
child_task = record idle { pid = 2; ppid = 1 }

-- The parent in slot 1, and its child in slot 2, which runs.
abbrev family : Scheduler
family = record {
  tasks = some idle ∷ some parent_task ∷ some child_task ∷ replicate 61 none;
  guard_phys = replicate max_tasks 0;
  current = 2;
  tick_count = 0;
  tty_waiter = none;
  pipe_waiters = replicate max_pipes none;
  pool = initial;
  next_pid = 3;
}

pick-Picks_example : Picks family.tasks 2 (pick family.tasks 2)
pick-Picks_example = pick-Picks family.tasks 2 (omega arith)

bounded_waiting_example : (n : ℕ) × (n < 63) × (after_calls (λ k. family.tasks) 5 (suc n) ≡ 2)
unfolding idle
bounded_waiting_example =
    bounded_waiting (λ k. family.tasks) 5 2 (omega arith) (omega arith) (omega arith) (λ k. refl)

exit_current_wakes_example :
    (t : Task) × (task_at (exit_current 7 family).tasks 1 ≡ some t)
    × (t.state ≡ ready)
    × (t.waiting_for_pid ≡ 0)
    × (t.pid ≡ 1)
unfolding idle
exit_current_wakes_example =
    exit_current_wakes 7 family child_task parent_task 1 refl (omega arith) refl refl
      (inr (refl, refl))

no_other_zombie : (j : ℕ) → 2 ≢ j → is_reapable 1 2 (task_at family.tasks j) ≡ false
unfolding idle
no_other_zombie zero ne = refl
no_other_zombie (suc zero) ne = refl
no_other_zombie (suc (suc zero)) ne = refl
no_other_zombie (suc (suc (suc k))) ne = vacant 61 k
  where
    vacant : (n k : ℕ) → is_reapable 1 2 (task_at (replicate n none) k) ≡ false
    vacant zero k = refl
    vacant (suc n) zero = refl
    vacant (suc n) (suc k) = vacant n k

waitpid-exit_current_example :
    let s' = exit_current 7 family in
    waitpid_pass 1 2 false s'
    ≡ (reaped 2 (7 % 256 * 256), record s' { tasks = set s'.tasks 2 none })
unfolding idle
waitpid-exit_current_example =
    waitpid-exit_current 7 family child_task false refl (omega arith) (omega arith) no_other_zombie

-- A task that holds both ends of a pipe, in slot 2.
abbrev piping : Task
piping = record child_task { fd_table = with_pipe }

abbrev with_piping : Scheduler
with_piping = record family {
  tasks = some idle ∷ some parent_task ∷ some piping ∷ replicate 61 none;
  pool = one_pipe;
}

current_fd_dup-miscounts_example :
    let (got, s') = current_fd_dup 3 with_piping in
    (got ≡ some 5)
    × ((t' : Task) × (current_task s' ≡ some t') × ¬ Counted s'.pool (t'.fd_table ∷ []))
unfolding Fds.alloc Fds.get Fds.new find_in
current_fd_dup-miscounts_example =
    current_fd_dup-miscounts with_piping piping 3 0 5 [] refl refl refl (omega arith) refl
      one_pipe-Counted

-- Two tasks that are ready, in slots 2 and 3.
abbrev two_ready : Scheduler
two_ready = record family {
  tasks =
      some idle ∷ none ∷ some child_task ∷ some (record child_task { pid = 4 }) ∷ replicate 60 none;
}

resume-switch_out_example :
    let (to, cpu', s') =
      switch_out 0 (record { kernel_stack = 0; address_space = 0; fs_base = 77 }) two_ready in
    (to ≡ some 3) × (s'.current ≡ 3) × ((resume 2 cpu' s').fs_base ≡ 77)
unfolding idle pick search_start slot_of_round find_in
resume-switch_out_example =
    resume-switch_out 0 3 (record { kernel_stack = 0; address_space = 0; fs_base = 77 }) two_ready
      (record child_task { pid = 4 }) child_task (omega arith) refl refl refl
