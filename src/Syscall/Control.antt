-- ===== src/Syscall/Control.antt =====
-- The smaller calls of kernel/src/syscall/mod.rs: process numbers, descriptor control, time, signal
-- masks, random bytes, names of the system. Bytes that a call writes to user memory are returned.
use Prim.Native.Nat.{bit_and}
use ferrugem.Prelude.{
  ℕ, zero, suc, ◌+◌, ◌-◌, ◌*◌, ◌/◌, ◌%◌, ◌^◌, Bool, ◌||◌, not, Option, none, some, [], ◌∷◌, ◌++◌,
  if◌then◌else◌, length, take, replicate, min, ltb, leb, ◌==◌,
}
use ferrugem.Bits.{bit_not}
use ferrugem.Bytes.{le_bytes, copy_at}
use ferrugem.Process.Fds.{
  FdEntry, empty, stdin, stdout, stderr, dev_null, dev_zero, dev_urandom, vfs_file, vfs_dir,
  pipe_read, pipe_write, socket_pair,
}
use ferrugem.Scheduler.{Scheduler}
use ferrugem.Scheduler.Current.{current_fd_get, current_pid, current_ppid, get_fs_base, set_fs_base}
use ferrugem.Scheduler.Wake.{u64_max}
use ferrugem.Vfs.Path.{Bytes}
use ferrugem.Syscall.Files.{SysResult, done, error}
use ferrugem.Syscall.Pipes.{FdResult, got, refused, sys_dup}

unfoldable pub sys_getpid : Scheduler → SysResult
sys_getpid s = done (current_pid s)

unfoldable pub sys_getppid : Scheduler → SysResult
sys_getppid s = done (current_ppid s)

-- The target of `wait4` and whether it returns at once, as `waitpid` gets them; `pid` is its 64 bits.
unfoldable pub wait4_target : (pid options : ℕ) → ℕ × Bool
wait4_target pid options =
    (if pid == 2 ^ 64 - 1 then u64_max else pid, not (bit_and options 1 == 0))

abbrev pub tcgets : ℕ
tcgets = 0x5401

abbrev pub tiocgwinsz : ℕ
tiocgwinsz = 0x5413

-- 24 rows and 80 columns, as `u16`s.
unfoldable pub winsize : Bytes
winsize = le_bytes 2 24 ++ (le_bytes 2 80 ++ (le_bytes 2 0 ++ le_bytes 2 0))

unfoldable pub tty_ioctl : (cmd arg : ℕ) → SysResult × Bytes
tty_ioctl cmd arg =
    if cmd == tcgets
    then (error 25, [])
    else if cmd == tiocgwinsz
    then (if arg == 0 then (error 14, []) else (done 0, winsize))
    else (error 25, [])

unfoldable pub entry_ioctl : Option FdEntry → (cmd arg : ℕ) → SysResult × Bytes
entry_ioctl none cmd arg = (error 9, [])
entry_ioctl (some stdin) cmd arg = tty_ioctl cmd arg
entry_ioctl (some stdout) cmd arg = tty_ioctl cmd arg
entry_ioctl (some stderr) cmd arg = tty_ioctl cmd arg
entry_ioctl (some empty) cmd arg = (error 25, [])
entry_ioctl (some dev_null) cmd arg = (error 25, [])
entry_ioctl (some dev_zero) cmd arg = (error 25, [])
entry_ioctl (some dev_urandom) cmd arg = (error 25, [])
entry_ioctl (some (vfs_file inode offset writable)) cmd arg = (error 25, [])
entry_ioctl (some (vfs_dir inode pos)) cmd arg = (error 25, [])
entry_ioctl (some (pipe_read idx)) cmd arg = (error 25, [])
entry_ioctl (some (pipe_write idx)) cmd arg = (error 25, [])
entry_ioctl (some (socket_pair r w)) cmd arg = (error 25, [])

unfoldable pub sys_ioctl : (fd cmd arg : ℕ) → Scheduler → SysResult × Bytes
sys_ioctl fd cmd arg s = entry_ioctl (current_fd_get fd s) cmd arg

-- A result of `dup` as a result of a call.
abbrev pub as_result : FdResult → SysResult
as_result (got fd) = done fd
as_result (refused errno) = error errno

unfoldable pub fcntl_open : (fd cmd : ℕ) → Scheduler → SysResult × Scheduler
fcntl_open fd cmd s =
    let (r, s') = sys_dup fd s in
    if cmd == 0
    then (as_result r, s')
    else if cmd == 1 || cmd == 2 || cmd == 4
    then (done 0, s)
    else if cmd == 3
    then (done 2, s)
    else (error 22, s)

unfoldable pub sys_fcntl : (fd cmd : ℕ) → Scheduler → SysResult × Scheduler
sys_fcntl fd cmd s = elim (current_fd_get fd s) [
  | none ↦ (error 9, s)
  | some entry ↦ fcntl_open fd cmd s
]

-- No alternate stack: SS_DISABLE at offset 8 of 24 bytes.
unfoldable pub sys_sigaltstack : (old_ss : ℕ) → SysResult × Bytes
sys_sigaltstack old_ss =
    (done 0, if old_ss == 0 then [] else copy_at 8 (le_bytes 4 2) (replicate 24 0))

unfoldable pub sys_rt_sigaction : (sig oact sigsetsize : ℕ) → SysResult × Bytes
sys_rt_sigaction sig oact sigsetsize =
    if sig == 0 || ltb 64 sig
    then (error 22, [])
    else (done 0, if oact == 0 then [] else replicate (24 + min sigsetsize 128) 0)

unfoldable pub sys_rt_sigprocmask : (oldset sigsetsize : ℕ) → SysResult × Bytes
sys_rt_sigprocmask oldset sigsetsize =
    (done 0, if oldset == 0 then [] else replicate (min sigsetsize 128) 0)

-- The seconds and nanoseconds of a clock that ticks a hundred times a second.
unfoldable pub sys_clock_gettime : (clock_id : ℕ) → Scheduler → SysResult × Option (ℕ × ℕ)
sys_clock_gettime clock_id s =
    let ticks = s.tick_count in
    if ltb 1 clock_id
    then (error 22, none)
    else (done 0, some (ticks / 100, ticks % 100 * 10000000))

-- The ticks to sleep for, or none if the time is not one; both are the 64 bits of an `i64`. The
-- arithmetic of the source is in 64 bits.
unfoldable pub nanosleep_ticks : (secs nsecs : ℕ) → Option ℕ
nanosleep_ticks secs nsecs =
    if leb (2 ^ 63) secs || leb 1000000000 nsecs
    then none
    else some ((secs * 100 % 2 ^ 64 + nsecs / 10000000) % 2 ^ 64)

-- The seed after one round.
unfoldable pub mix : ℕ → ℕ
mix seed = (seed * 0x9e3779b97f4a7c15 + 0x6c62272e07bb0142) % 2 ^ 64

-- `n` chunks of eight bytes.
unfoldable pub chunks : (n seed : ℕ) → Bytes
chunks zero seed = []
chunks (suc n) seed = le_bytes 8 (mix seed) ++ chunks n (mix seed)

-- `seed` is the entropy source's.
unfoldable pub sys_getrandom : (seed len : ℕ) → SysResult × Bytes
sys_getrandom seed len = (done len, take len (chunks ((len + 7) / 8) seed))

-- What a futex call does at a word with value `cur`: `waits` gives up the processor once.
pub data FutexResult : Type 0 where
  woken : (n : ℕ) → FutexResult
  futex_error : (errno : ℕ) → FutexResult
  waits : FutexResult

unfoldable pub sys_futex : (uaddr op val cur : ℕ) → FutexResult
unfolding bit_not
sys_futex uaddr op val cur =
    let op_clean = bit_and op (bit_not 64 128) in
    if op_clean == 0
    then (if uaddr == 0 then futex_error 14 else if not (cur == val) then futex_error 11 else waits)
    else if op_clean == 1
    then woken 0
    else futex_error 38

-- The scheduler's field and the register `fs_base`, and the word that is written.
unfoldable pub sys_arch_prctl :
    (code addr : ℕ) → (fs_base : ℕ) → Scheduler → (SysResult × Option ℕ) × ℕ × Scheduler
sys_arch_prctl code addr fs_base s =
    if code == 0x1002
    then ((done 0, none), addr, set_fs_base addr s)
    else if code == 0x1003
    then (if addr == 0 then (error 14, none) else (done 0, some (get_fs_base s)), fs_base, s)
    else ((error 22, none), fs_base, s)

-- A field of `uname`: the string, cut to 64 bytes, and a null; the rest stays.
unfoldable pub fill : (dst s : Bytes) → Bytes
fill dst s = let n = min (length s) 64 in copy_at n (0 ∷ []) (copy_at 0 (take n s) dst)

pub record UtsName : Type 0 where
  pub sysname : Bytes
  pub nodename : Bytes
  pub release : Bytes
  pub version : Bytes
  pub machine : Bytes

abbrev pub ferrugem_tail : Bytes
ferrugem_tail = b'e' ∷ b'r' ∷ b'r' ∷ b'u' ∷ b'g' ∷ b'e' ∷ b'm' ∷ []

abbrev pub build : Bytes
build = b'#' ∷ b'1' ∷ b' ' ∷ b'S' ∷ b'M' ∷ b'P' ∷ []

abbrev pub x86_64_name : Bytes
x86_64_name = b'x' ∷ b'8' ∷ b'6' ∷ b'_' ∷ b'6' ∷ b'4' ∷ []

-- The version's string is made by the build.
unfoldable pub sys_uname : (version_full : Bytes) → UtsName → SysResult × UtsName
sys_uname version_full buf = (
  done 0,
  record {
    sysname = fill buf.sysname (b'F' ∷ ferrugem_tail);
    nodename = fill buf.nodename (b'f' ∷ ferrugem_tail);
    release = fill buf.release version_full;
    version = fill buf.version build;
    machine = fill buf.machine x86_64_name;
  },
)
