-- ===== src/Syscall/Tests.antt =====
-- System calls at concrete inputs.
use ferrugem.Prelude.{◌≡◌, refl, none, some, [], ◌∷◌, replicate, true, false, length, arith}
use ferrugem.Ipc.Pipe
use ferrugem.Ipc.Pipe.Bulk.{new-IsValid}
use ferrugem.Ipc.Pool.{max_pipes, slot_at, initial, alloc_pipe, fresh_slot, new_slot}
use ferrugem.Process.Fds
use ferrugem.Process.Fds.{max_fds}
use ferrugem.Process.Fds.Tests.{with_pipe, one_pipe, one_pipe-Counted}
use ferrugem.Process.Task.{Task, idle}
use ferrugem.Scheduler.{Scheduler, max_tasks}
use ferrugem.Scheduler.Current.{current_fd_get}
use ferrugem.Vfs.RamFs
use ferrugem.Syscall.Files.{World, sys_close, sys_read}
use ferrugem.Syscall.Poll.{poll_one}
use ferrugem.Syscall.Files.Close.{Closed, sys_close-Counted}
use ferrugem.Syscall.Files.Ready.{asked, foretold, poll_one-sys_read}

abbrev holder : Task
holder = record idle { pid = 1; fd_table = with_pipe }

-- A task that holds both ends of a pipe, in slot 1.
abbrev one_task : Scheduler
one_task = record {
  tasks = some idle ∷ some holder ∷ replicate 62 none;
  guard_phys = replicate max_tasks 0;
  current = 1;
  tick_count = 0;
  tty_waiter = none;
  pipe_waiters = replicate max_pipes none;
  pool = one_pipe;
  next_pid = 2;
}

table_length : length with_pipe ≡ max_fds
unfolding Fds.new
table_length = refl

sys_close-Counted_example :
    Closed 3 holder [] one_task (sys_close 3 one_task).0 (sys_close 3 one_task).1
sys_close-Counted_example =
    sys_close-Counted 3 one_task holder [] refl table_length one_pipe-Counted

abbrev one_world : World
one_world = record { sched = one_task; fs = RamFs.new; console = [] }

reads_pipe : current_fd_get 3 one_task ≡ some (Fds.pipe_read 0)
unfolding current_fd_get Fds.get Fds.new
reads_pipe = refl

pipe_in_use : (slot_at one_task.pool 0).in_use ≡ true
unfolding alloc_pipe initial fresh_slot new_slot
pipe_in_use = refl

pipe_new : (slot_at one_task.pool 0).pipe ≡ Pipe.new
unfolding alloc_pipe initial fresh_slot Pipe.new new_slot
pipe_new = refl

pool_length : length one_task.pool ≡ max_pipes
unfolding alloc_pipe initial new_slot
pool_length = refl

-- An empty pipe with a writer: `read` would wait.
poll_one-sys_read_example :
    (poll_one false one_world.sched (asked 3)).0.revents
    ≡ foretold (sys_read none (λ n. replicate n 0) 3 (0 ∷ []) one_world).0
poll_one-sys_read_example =
    poll_one-sys_read false none (λ n. replicate n 0) 3 0 (0 ∷ []) one_world (omega arith)
      reads_pipe pool_length (omega arith) pipe_in_use (rw pipe_new new-IsValid) (omega arith)
