-- ===== src/Syscall/Pipes.antt =====
-- `pipe`, `socketpair`, `dup` and `dup2` of kernel/src/syscall/mod.rs. The descriptors that the
-- source writes to user memory are part of the result; an error is its number without the sign.
-- The pointer argument is not null here.
use ferrugem.Prelude.{ℕ, ◌==◌, Option, none, some, if◌then◌else◌}
use ferrugem.Ipc.Pool.{Pool, alloc_pipe, close_pipe_read, close_pipe_write}
use ferrugem.Process.Fds.{pipe_read, pipe_write, socket_pair}
use ferrugem.Scheduler.{Scheduler}
use ferrugem.Scheduler.Current.{current_fd_get, current_fd_alloc, current_fd_dup, current_fd_dup2}

pub data PairResult : Type 0 where
  pair : (first second : ℕ) → PairResult
  failed : (errno : ℕ) → PairResult

abbrev pub emfile : ℕ
emfile = 24

abbrev pub ebadf : ℕ
ebadf = 9

abbrev pub close_both : ℕ → Pool → Pool
close_both idx pool = close_pipe_write idx (close_pipe_read idx pool)

abbrev pub close_found : Option ℕ → Pool → Pool
close_found none pool = pool
close_found (some idx) pool = close_both idx pool

unfoldable pub sys_pipe : Scheduler → PairResult × Scheduler
sys_pipe s =
    let (found, pool) = alloc_pipe s.pool in
    elim found [
      | none ↦ (failed emfile, record s { pool = pool })
      | some idx ↦
          let (r_fd, s1) = current_fd_alloc (pipe_read idx) (record s { pool = pool }) in
          let (w_fd, s2) = current_fd_alloc (pipe_write idx) s1 in
          let undone = record s2 { pool = close_both idx s2.pool } in
          elim r_fd [
            | none ↦ (failed emfile, undone)
            | some r ↦ elim w_fd [ none ↦ (failed emfile, undone) | some w ↦ (pair r w, s2) ]
          ]
    ]

-- The failure after both pipes are allocated: the write end of `a` is not closed.
abbrev pub undo_pair : (a b : ℕ) → Pool → Pool
undo_pair a b pool = close_pipe_read b (close_pipe_write b (close_pipe_read a pool))

unfoldable pub sys_socketpair : Scheduler → PairResult × Scheduler
sys_socketpair s =
    let (found_a, pool1) = alloc_pipe s.pool in
    let (found_b, pool2) = alloc_pipe pool1 in
    let without = record s { pool = close_found found_b (close_found found_a pool2) } in
    elim found_a [
      | none ↦ (failed emfile, without)
      | some a ↦ elim found_b [
        | none ↦ (failed emfile, without)
        | some b ↦
            let (fd0, s1) = current_fd_alloc (socket_pair a b) (record s { pool = pool2 }) in
            let (fd1, s2) = current_fd_alloc (socket_pair b a) s1 in
            let undone = record s2 { pool = undo_pair a b s2.pool } in
            elim fd0 [
              | none ↦ (failed emfile, undone)
              | some f0 ↦ elim fd1 [ none ↦ (failed emfile, undone) | some f1 ↦ (pair f0 f1, s2) ]
            ]
      ]
    ]

pub data FdResult : Type 0 where
  got : (fd : ℕ) → FdResult
  refused : (errno : ℕ) → FdResult

abbrev pub fd_or_bad : Option ℕ → FdResult
fd_or_bad none = refused ebadf
fd_or_bad (some fd) = got fd

unfoldable pub sys_dup : (oldfd : ℕ) → Scheduler → FdResult × Scheduler
sys_dup oldfd s = let (fd, s') = current_fd_dup oldfd s in (fd_or_bad fd, s')

unfoldable pub sys_dup2 : (oldfd newfd : ℕ) → Scheduler → FdResult × Scheduler
sys_dup2 oldfd newfd s =
    let same : FdResult = elim (current_fd_get oldfd s) [
      | none ↦ refused ebadf
      | some entry ↦ got oldfd
    ] in
    let (fd, s') = current_fd_dup2 oldfd newfd s in
    if oldfd == newfd then (same, s) else (fd_or_bad fd, s')
