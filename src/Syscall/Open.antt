-- ===== src/Syscall/Open.antt =====
-- `open`, `lseek` and the calls with a directory's descriptor of kernel/src/syscall/mod.rs. As in
-- Syscall/Files.antt a path is what `read_path` finds. An `i64` is its 64 bits.
use Prim.Native.Nat.{bit_and}
use ferrugem.Prelude.{
  ℕ, ◌+◌, ◌-◌, ◌%◌, ◌^◌, ◌&&◌, ◌||◌, not, Option, none, some, [], ◌∷◌, if◌then◌else◌, leb, ◌==◌,
}
use ferrugem.Process.Fds.{
  FdEntry, empty, stdin, stdout, stderr, dev_null, dev_zero, dev_urandom, vfs_file, vfs_dir,
  pipe_read, pipe_write, socket_pair,
}
use ferrugem.Scheduler.{Scheduler}
use ferrugem.Scheduler.Current.{
  current_fd_get, current_fd_alloc, current_fd_set_offset, current_cwd,
}
use ferrugem.Vfs.Path.{Bytes, bytes_eq}
use ferrugem.Fs
use ferrugem.Syscall.Files.{World, SysResult, done, error, proper, unless}

-- "/dev/" and the names below it.
abbrev dev : Bytes → Bytes
dev name = b'/' ∷ b'd' ∷ b'e' ∷ b'v' ∷ b'/' ∷ name

abbrev pub null_path : Bytes
null_path = dev (b'n' ∷ b'u' ∷ b'l' ∷ b'l' ∷ [])

abbrev pub zero_path : Bytes
zero_path = dev (b'z' ∷ b'e' ∷ b'r' ∷ b'o' ∷ [])

abbrev pub urandom_path : Bytes
urandom_path = dev (b'u' ∷ b'r' ∷ b'a' ∷ b'n' ∷ b'd' ∷ b'o' ∷ b'm' ∷ [])

abbrev pub random_path : Bytes
random_path = dev (b'r' ∷ b'a' ∷ b'n' ∷ b'd' ∷ b'o' ∷ b'm' ∷ [])

abbrev pub hwrng_path : Bytes
hwrng_path = dev (b'h' ∷ b'w' ∷ b'r' ∷ b'n' ∷ b'g' ∷ [])

abbrev pub tty_path : Bytes
tty_path = dev (b't' ∷ b't' ∷ b'y' ∷ [])

abbrev pub console_path : Bytes
console_path = dev (b'c' ∷ b'o' ∷ b'n' ∷ b's' ∷ b'o' ∷ b'l' ∷ b'e' ∷ [])

unfoldable pub open_dev_path : Bytes → Option FdEntry
open_dev_path path =
    if bytes_eq path null_path
    then some dev_null
    else if bytes_eq path zero_path
    then some dev_zero
    else if bytes_eq path urandom_path || bytes_eq path random_path || bytes_eq path hwrng_path
    then some dev_urandom
    else if bytes_eq path tty_path || bytes_eq path console_path
    then some stdout
    else none

-- A new descriptor, or EMFILE.
unfoldable pub install : FdEntry → World → SysResult × World
install e w =
    let (found, sched) = current_fd_alloc e w.sched in
    (elim found [ none ↦ error 24 | some fd ↦ done fd ], record w { sched = sched })

-- What is done with the inode of a file: it may be truncated, by a write of no bytes.
unfoldable pub open_file : (inode flags : ℕ) → World → SysResult × World
open_file inode flags w =
    let writable = not (bit_and flags 3 == 0) in
    let fs =
      if not (bit_and flags 0x200 == 0) && writable
      then (Fs.write_inode inode 0 [] w.fs).0
      else w.fs in
    let offset = if not (bit_and flags 0x400 == 0) && writable then Fs.inode_size inode fs else 0 in
    install (vfs_file inode offset writable) (record w { fs = fs })

-- The body that `open` and `openat` share, from the current directory `cwd`.
unfoldable pub open_at : (cwd : ℕ) → Option Bytes → (flags : ℕ) → World → SysResult × World
open_at cwd path flags w = elim (proper path) [
  | none ↦ (error 2, w)
  | some p ↦ elim (open_dev_path p) [
    | some dev ↦ install dev w
    | none ↦
        let writable = not (bit_and flags 3 == 0) in
        let fs = if not (bit_and flags 0x40 == 0) then (Fs.touch p cwd 0 0 w.fs).1 else w.fs in
        let w' = record w { fs = fs } in
        elim (Fs.open_inode p cwd 0 0 writable fs) [
          | some inode ↦ open_file inode flags w'
          | none ↦ if writable then (error 2, w') else elim (Fs.open_dir p cwd fs) [
            | some inode ↦ install (vfs_dir inode 0) w'
            | none ↦ (error 2, w')
          ]
        ]
  ]
]

unfoldable pub sys_open : Option Bytes → (flags : ℕ) → World → SysResult × World
sys_open path flags w = open_at (current_cwd w.sched) path flags w

abbrev pub at_fdcwd : ℕ
at_fdcwd = 2 ^ 64 - 100

-- The inode that a descriptor of a directory or a file names.
unfoldable pub entry_inode : (cwd : ℕ) → Option FdEntry → ℕ
entry_inode cwd none = cwd
entry_inode cwd (some (vfs_dir inode pos)) = inode
entry_inode cwd (some (vfs_file inode offset writable)) = inode
entry_inode cwd (some empty) = cwd
entry_inode cwd (some stdin) = cwd
entry_inode cwd (some stdout) = cwd
entry_inode cwd (some stderr) = cwd
entry_inode cwd (some dev_null) = cwd
entry_inode cwd (some dev_zero) = cwd
entry_inode cwd (some dev_urandom) = cwd
entry_inode cwd (some (pipe_read idx)) = cwd
entry_inode cwd (some (pipe_write idx)) = cwd
entry_inode cwd (some (socket_pair r w)) = cwd

unfoldable pub at_cwd : (dirfd : ℕ) → Scheduler → ℕ
at_cwd dirfd s =
    if dirfd == at_fdcwd
    then current_cwd s
    else entry_inode (current_cwd s) (current_fd_get dirfd s)

unfoldable pub sys_openat : (dirfd : ℕ) → Option Bytes → (flags : ℕ) → World → SysResult × World
sys_openat dirfd path flags w = open_at (at_cwd dirfd w.sched) path flags w

unfoldable pub sys_unlinkat : (dirfd : ℕ) → Option Bytes → (flags : ℕ) → World → SysResult × World
sys_unlinkat dirfd path flags w = elim (proper path) [
  | none ↦ (error 2, w)
  | some p ↦
      let cwd = at_cwd dirfd w.sched in
      unless 2 w (
        if not (bit_and flags 0x200 == 0)
        then Fs.rmdir p cwd 0 0 w.fs
        else Fs.unlink p cwd 0 0 w.fs)
]

unfoldable pub sys_mkdirat : (dirfd : ℕ) → Option Bytes → (mode : ℕ) → World → SysResult × World
sys_mkdirat dirfd path mode w = elim (proper path) [
  | none ↦ (error 2, w)
  | some p ↦ unless 17 w (Fs.mkdir p (at_cwd dirfd w.sched) 0 0 (mode % 2 ^ 16) w.fs)
]

-- The new offset; a sum with its top bit set is negative.
unfoldable pub seek_to : (inode cur fd offset whence : ℕ) → World → SysResult × World
seek_to inode cur fd offset whence w =
    let moved = λ (base : ℕ).
      let n = (base + offset) % 2 ^ 64 in
      if leb (2 ^ 63) n
      then (let r : SysResult × World = (error 22, w) in r)
      else (done n, record w { sched = current_fd_set_offset fd n w.sched }) in
    if whence == 0
    then moved 0
    else if whence == 1
    then moved cur
    else if whence == 2
    then moved (Fs.inode_size inode w.fs)
    else (error 22, w)

unfoldable pub seek_entry : Option FdEntry → (fd offset whence : ℕ) → World → SysResult × World
seek_entry (some (vfs_file inode cur writable)) fd offset whence w =
    seek_to inode cur fd offset whence w
seek_entry (some (vfs_dir inode pos)) fd offset whence w = (error 21, w)
seek_entry (some stdin) fd offset whence w = (error 29, w)
seek_entry (some stdout) fd offset whence w = (error 29, w)
seek_entry (some stderr) fd offset whence w = (error 29, w)
seek_entry (some (pipe_read idx)) fd offset whence w = (error 29, w)
seek_entry (some (pipe_write idx)) fd offset whence w = (error 29, w)
seek_entry (some (socket_pair a b)) fd offset whence w = (error 29, w)
seek_entry (some dev_null) fd offset whence w = (error 29, w)
seek_entry (some dev_zero) fd offset whence w = (error 29, w)
seek_entry (some dev_urandom) fd offset whence w = (error 29, w)
seek_entry (some empty) fd offset whence w = (error 9, w)
seek_entry none fd offset whence w = (error 9, w)

unfoldable pub sys_lseek : (fd offset whence : ℕ) → World → SysResult × World
sys_lseek fd offset whence w = seek_entry (current_fd_get fd w.sched) fd offset whence w
