-- ===== src/Syscall/Files/Ready.antt =====
-- `poll` and `read` on the read end of a pipe.
use ferrugem.Prelude.{
  ℕ, ◌^◌, ◌<◌, ◌≡◌, arith, Bool, true, Option, some, length, ◌==◌, if◌then◌else◌,
}
use ferrugem.Ipc.Pipe.Bulk.{IsValid}
use ferrugem.Ipc.Pool.{max_pipes, slot_at}
use ferrugem.Ipc.Pool.Polled.{pipe_read-zero, pipe_write_open-pipe_read}
use ferrugem.Process.Fds.{pipe_read}
use ferrugem.Scheduler.Current.{current_fd_get}
use ferrugem.Vfs.Path.{Bytes}
use ferrugem.Syscall.Files.{
  World, ReadResult, bytes_read, read_error, wait_pipe, wait_tty, read_end, read_entry, sys_read,
}
use ferrugem.Syscall.Poll.{PollFd, pollin, pollhup, pollnval, poll_one, poll_entry, poll_reader}

-- The events of a `poll` that foretell a `read`.
abbrev pub foretold : ReadResult → ℕ
foretold (bytes_read buf n) = if n == 0 then pollhup else pollin
foretold (read_error errno) = pollnval
foretold (wait_pipe idx) = 0
foretold wait_tty = 0

-- The descriptor `fd`, polled for input.
abbrev pub asked : ℕ → PollFd
asked fd = record { fd = fd; events = pollin; revents = 0 }

poll_reader-read_end :
    (idx : ℕ) (buf : Bytes) (w : World)
    → length w.sched.pool ≡ max_pipes
    → idx < max_pipes
    → (slot_at w.sched.pool idx).in_use ≡ true
    → IsValid (slot_at w.sched.pool idx).pipe
    → 0 < length buf
    → (poll_reader w.sched.pool idx pollin).0 ≡ foretold (read_end idx buf w).0
unfolding poll_reader
poll_reader-read_end idx buf w len h used v some_room = ground (
  arith,
  pipe_read-zero idx buf w.sched.pool h used v some_room,
  pipe_write_open-pipe_read idx buf w.sched.pool len h used,
)

-- For the read end of a pipe in use, of a pool of eight pipes, and a buffer of one byte or more:
-- `poll` for input reports POLLIN exactly when `read` would give bytes, POLLHUP exactly when it would
-- give the end of the file, and nothing exactly when it would wait for the pipe.
pub poll_one-sys_read :
    (has_data : Bool) (key : Option ℕ) (random : ℕ → Bytes) (fd idx : ℕ) (buf : Bytes) (w : World)
    → fd < 2 ^ 31
    → current_fd_get fd w.sched ≡ some (pipe_read idx)
    → length w.sched.pool ≡ max_pipes
    → idx < max_pipes
    → (slot_at w.sched.pool idx).in_use ≡ true
    → IsValid (slot_at w.sched.pool idx).pipe
    → 0 < length buf
    → (poll_one has_data w.sched (asked fd)).0.revents ≡ foretold (sys_read key random fd buf w).0
unfolding poll_one poll_entry sys_read read_entry
poll_one-sys_read has_data key random fd idx buf w small at len h used v some_room =
    rw at (ground (arith, poll_reader-read_end idx buf w len h used v some_room, small, some_room))
