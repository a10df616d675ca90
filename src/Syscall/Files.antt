-- ===== src/Syscall/Files.antt =====
-- `read`, `write`, `close`, `chdir`, `mkdir`, `rmdir`, `unlink` and `kill` of
-- kernel/src/syscall/mod.rs. A path is what `read_path` finds at the pointer, and a buffer is its
-- bytes; pointers are not null here. What goes to the serial line is appended to `console`.
pub mod Close
pub mod Ready
use ferrugem.Prelude.{
  ℕ, ◌+◌, ◌%◌, ◌^◌, Bool, true, false, ◌&&◌, ◌||◌, not, Option, none, some, List, [], ◌∷◌, ◌++◌,
  ◌==◌, ltb, length, take, drop, replicate, if◌then◌else◌,
}
use ferrugem.Ipc.Pool.{Pool, close_pipe_read, close_pipe_write, pipe_write_open, pipe_read_open}
use ferrugem.Ipc.Pool
use ferrugem.Process.Fds.{
  FdEntry, empty, stdin, stdout, stderr, dev_null, dev_zero, dev_urandom, vfs_file, vfs_dir,
  pipe_read, pipe_write, socket_pair,
}
use ferrugem.Process.Signal.{sigkill, sigterm, sigabrt, sigquit, sighup}
use ferrugem.Scheduler.{Scheduler}
use ferrugem.Scheduler.Current.{
  current_fd_get, current_fd_close, current_fd_set_offset, current_cwd, set_cwd, current_pid,
}
use ferrugem.Scheduler.Wake.{wake_pipe_waiter, raise_signal_to_pid}
use ferrugem.Scheduler.Exit.{exit_current}
use ferrugem.Vfs.Path.{Bytes, is_nil}
use ferrugem.Vfs.RamFs.{RamFs}
use ferrugem.Fs

pub record World : Type 0 where
  pub sched : Scheduler
  pub fs : RamFs
  pub console : Bytes

-- An error is its number without the sign.
pub data SysResult : Type 0 where
  done : (n : ℕ) → SysResult
  error : (errno : ℕ) → SysResult

abbrev advance : (fd offset n : ℕ) → Scheduler → Scheduler
advance fd offset n s = if ltb 0 n then current_fd_set_offset fd (offset + n) s else s

-- The write end of a pipe, of a pipe descriptor or of a socket.
abbrev write_end : (idx : ℕ) → Bytes → World → SysResult × World
write_end idx src w =
    let s = w.sched in
    let (pool, n) = Pool.pipe_write idx src s.pool in
    let written = record s { pool = pool } in
    if not (pipe_read_open idx s.pool)
    then (error 32, w)
    else (done n, record w { sched = if ltb 0 n then wake_pipe_waiter idx written else written })

write_entry : FdEntry → (fd : ℕ) → Bytes → World → SysResult × World
write_entry stdout fd src w = (done (length src), record w { console = w.console ++ src })
write_entry stderr fd src w = (done (length src), record w { console = w.console ++ src })
write_entry (vfs_file inode offset writable) fd src w =
    let (fs, n) = Fs.write_inode inode offset src w.fs in
    if not writable
    then (error 13, w)
    else (done n, record w { fs = fs; sched = advance fd offset n w.sched })
write_entry (pipe_write idx) fd src w = write_end idx src w
write_entry (socket_pair read_idx write_idx) fd src w = write_end write_idx src w
write_entry dev_null fd src w = (done (length src), w)
write_entry dev_zero fd src w = (done (length src), w)
write_entry dev_urandom fd src w = (done (length src), w)
write_entry (vfs_dir inode pos) fd src w = (error 21, w)
write_entry stdin fd src w = (error 9, w)
write_entry (pipe_read idx) fd src w = (error 9, w)
write_entry empty fd src w = (error 9, w)

unfoldable pub sys_write : (fd : ℕ) → Bytes → World → SysResult × World
unfolding write_entry
sys_write fd src w =
    let out : SysResult × World = elim (current_fd_get fd w.sched) [
      | none ↦ (error 9, w)
      | some entry ↦ write_entry entry fd src w
    ] in
    if length src == 0 then (done 0, w) else out

-- What follows the close of a write end: a reader that waits for it is woken if it was the last.
abbrev wake_if_closed : ℕ → Scheduler → Scheduler
wake_if_closed idx s = if not (pipe_write_open idx s.pool) then wake_pipe_waiter idx s else s

unfoldable pub close_entry : FdEntry → Scheduler → Scheduler
close_entry (pipe_read idx) s = record s { pool = close_pipe_read idx s.pool }
close_entry (pipe_write idx) s =
    wake_if_closed idx (record s { pool = close_pipe_write idx s.pool })
close_entry (socket_pair read_idx write_idx) s =
    wake_if_closed write_idx
      (record s { pool = close_pipe_write write_idx (close_pipe_read read_idx s.pool) })
close_entry _ s = s

unfoldable pub sys_close : (fd : ℕ) → Scheduler → SysResult × Scheduler
sys_close fd s =
    let (found, s') = current_fd_close fd s in
    elim found [ none ↦ (error 9, s') | some entry ↦ (done 0, close_entry entry s') ]

-- A pass of the loop of `read` ends the call, or waits for input.
pub data ReadResult : Type 0 where
  bytes_read : (buf : Bytes) (n : ℕ) → ReadResult
  read_error : (errno : ℕ) → ReadResult
  wait_pipe : (idx : ℕ) → ReadResult
  wait_tty : ReadResult

abbrev read_end : (idx : ℕ) → Bytes → World → ReadResult × World
read_end idx buf w =
    let s = w.sched in
    let (pool, buf', n) = Pool.pipe_read idx buf s.pool in
    let w' = record w { sched = record s { pool = pool } } in
    if ltb 0 n
    then (bytes_read buf' n, w')
    else if not (pipe_write_open idx pool)
    then (bytes_read buf' 0, w')
    else (wait_pipe idx, w')

-- Enter is read as a line feed.
abbrev line_feed : ℕ → ℕ
line_feed b = if b == 13 then 10 else b

-- `key` is the byte that the terminal has, if any; its echo is not modelled. `random` gives `len`
-- bytes of the entropy source.
read_entry :
    (key : Option ℕ)
    → (random : ℕ → Bytes) → FdEntry
    → (fd : ℕ) → Bytes
    → World
    → ReadResult × World
read_entry none random stdin fd buf w = (wait_tty, w)
read_entry (some b) random stdin fd buf w = (bytes_read (line_feed b ∷ drop 1 buf) 1, w)
read_entry key random (vfs_file inode offset writable) fd buf w =
    let (buf', n) = Fs.read_inode inode offset buf w.fs in
    (bytes_read buf' n, record w { sched = advance fd offset n w.sched })
read_entry key random (pipe_read idx) fd buf w = read_end idx buf w
read_entry key random (socket_pair read_idx write_idx) fd buf w = read_end read_idx buf w
read_entry key random dev_null fd buf w = (bytes_read buf 0, w)
read_entry key random dev_zero fd buf w = (bytes_read (replicate (length buf) 0) (length buf), w)
read_entry key random dev_urandom fd buf w = (bytes_read (random (length buf)) (length buf), w)
read_entry key random (vfs_dir inode pos) fd buf w = (read_error 21, w)
read_entry key random stdout fd buf w = (read_error 9, w)
read_entry key random stderr fd buf w = (read_error 9, w)
read_entry key random (pipe_write idx) fd buf w = (read_error 9, w)
read_entry key random empty fd buf w = (read_error 9, w)

unfoldable pub sys_read :
    (key : Option ℕ) → (random : ℕ → Bytes) → (fd : ℕ) → Bytes → World → ReadResult × World
unfolding read_entry
sys_read key random fd buf w =
    let out : ReadResult × World = elim (current_fd_get fd w.sched) [
      | none ↦ (read_error 9, w)
      | some entry ↦ read_entry key random entry fd buf w
    ] in
    if length buf == 0 then (bytes_read buf 0, w) else out

-- The path of a call, if it is a string that is not empty.
abbrev pub proper : Option Bytes → Option Bytes
proper none = none
proper (some path) = if is_nil path then none else some path

-- The result of an operation of the file system.
abbrev pub unless : (errno : ℕ) → World → Bool × RamFs → SysResult × World
unless errno w (ok, fs) = (if ok then done 0 else error errno, record w { fs = fs })

unfoldable pub sys_chdir : Option Bytes → World → SysResult × World
sys_chdir path w = elim (proper path) [
  | none ↦ (error 2, w)
  | some p ↦ elim (Fs.open_dir p (current_cwd w.sched) w.fs) [
    | none ↦ (error 2, w)
    | some inode ↦ (done 0, record w { sched = set_cwd inode w.sched })
  ]
]

-- The mode is a `u16`.
unfoldable pub sys_mkdir : Option Bytes → (mode : ℕ) → World → SysResult × World
sys_mkdir path mode w = elim (proper path) [
  | none ↦ (error 2, w)
  | some p ↦ unless 17 w (Fs.mkdir p (current_cwd w.sched) 0 0 (mode % 2 ^ 16) w.fs)
]

unfoldable pub sys_rmdir : Option Bytes → World → SysResult × World
sys_rmdir path w = elim (proper path) [
  | none ↦ (error 2, w)
  | some p ↦ unless 2 w (Fs.rmdir p (current_cwd w.sched) 0 0 w.fs)
]

unfoldable pub sys_unlink : Option Bytes → World → SysResult × World
sys_unlink path w = elim (proper path) [
  | none ↦ (error 2, w)
  | some p ↦ unless 2 w (Fs.unlink p (current_cwd w.sched) 0 0 w.fs)
]

abbrev pub is_fatal : ℕ → Bool
is_fatal sig = sig == sigkill || sig == sigterm || sig == sigabrt || sig == sigquit || sig == sighup

-- A fatal signal to itself ends the caller, up to the call of `schedule` in `exit_current`, and the
-- source then goes on to raise the signal.
unfoldable pub sys_kill : (target_pid sig : ℕ) → Scheduler → SysResult × Scheduler
sys_kill target_pid sig s =
    let n = sig % 2 ^ 8 in
    let own = target_pid == current_pid s || target_pid == 0 in
    let after = if ltb 0 n && is_fatal n && own then exit_current n s else s in
    let (found, s') : Bool × Scheduler =
      let (s1, ok) = raise_signal_to_pid target_pid n after in (ok, s1) in
    if ltb 31 n then (error 22, s) else (if found then done 0 else error 3, s')
