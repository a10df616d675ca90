-- ===== src/Syscall/Stat.antt =====
-- `stat`, `fstat`, `newfstatat`, `getcwd` and `getdents64` of kernel/src/syscall/mod.rs. A structure
-- that is written to user memory is returned; a buffer is its bytes, and pointers are not null.
use Prim.Native.Nat.{bit_and, bit_or}
use ferrugem.Prelude.{
  ℕ, ◌+◌, ◌-◌, ◌*◌, ◌/◌, ◌||◌, Option, none, some, List, [], ◌∷◌, ◌++◌, if◌then◌else◌, length, take,
  drop, replicate, ltb, leb, ◌==◌,
}
use ferrugem.Bytes.{le_bytes, copy_at}
use ferrugem.Process.Fds.{
  FdEntry, empty, stdin, stdout, stderr, dev_null, dev_zero, dev_urandom, vfs_file, vfs_dir,
  pipe_read, pipe_write, socket_pair,
}
use ferrugem.Scheduler.Current.{current_fd_get, current_fd_set_dir_pos, current_cwd}
use ferrugem.Vfs.Path.{Bytes, bytes_eq, is_nil}
use ferrugem.Vfs.RamFs.{RamFs, Inode, is_dir_kind, inode_at}
use ferrugem.Fs
use ferrugem.Syscall.Files.{World, SysResult, done, error, proper}
use ferrugem.Syscall.Open.{
  null_path, zero_path, urandom_path, random_path, tty_path, console_path, at_fdcwd, at_cwd,
}

-- The fields that are written; the others are zero.
pub record Stat : Type 0 where
  pub st_dev : ℕ
  pub st_ino : ℕ
  pub st_nlink : ℕ
  pub st_mode : ℕ
  pub st_uid : ℕ
  pub st_gid : ℕ
  pub st_rdev : ℕ
  pub st_size : ℕ
  pub st_blksize : ℕ
  pub st_blocks : ℕ

-- The result, and the structure if one is written.
abbrev pub StatResult : Type 0
StatResult = SysResult × Option Stat

abbrev pub refuse : ℕ → StatResult
refuse errno = (error errno, none)

abbrev pub give : Stat → StatResult
give st = (done 0, some st)

abbrev pub shown_size : Inode → ℕ
shown_size n = if is_dir_kind n.kind then 4096 else n.size

unfoldable pub inode_stat : ℕ → Inode → Stat
inode_stat inode_idx n = record {
  st_dev = 1;
  st_ino = inode_idx;
  st_nlink = 1;
  st_mode = bit_or (if is_dir_kind n.kind then 0x4000 else 0x8000) n.mode;
  st_uid = n.uid;
  st_gid = n.gid;
  st_rdev = 0;
  st_size = shown_size n;
  st_blksize = 4096;
  st_blocks = (shown_size n + 511) / 512;
}

unfoldable pub fill_inode_stat : RamFs → (inode_idx : ℕ) → StatResult
fill_inode_stat fs inode_idx = elim (Fs.stat_inode_by_idx inode_idx fs) [
  | none ↦ refuse 2
  | some n ↦ give (inode_stat inode_idx n)
]

-- A character device with no owner and no size.
abbrev pub device_stat : (dev ino mode rdev blksize : ℕ) → Stat
device_stat dev ino mode rdev blksize = record {
  st_dev = dev;
  st_ino = ino;
  st_nlink = 1;
  st_mode = mode;
  st_uid = 0;
  st_gid = 0;
  st_rdev = rdev;
  st_size = 0;
  st_blksize = blksize;
  st_blocks = 0;
}

unfoldable pub fill_tty_stat : ℕ → Stat
fill_tty_stat fd = device_stat 5 (fd + 1) 0x2190 1088 1024

unfoldable pub fill_dev_stat : ℕ → Stat
fill_dev_stat rdev = device_stat 1 (bit_and rdev 0xFF) 0x2180 rdev 4096

-- The paths of devices that `stat` and `newfstatat` know.
unfoldable pub dev_path_stat : Bytes → Option Stat
dev_path_stat path =
    if bytes_eq path null_path
    then some (fill_dev_stat 259)
    else if bytes_eq path zero_path
    then some (fill_dev_stat 261)
    else if bytes_eq path urandom_path || bytes_eq path random_path
    then some (fill_dev_stat 265)
    else if bytes_eq path tty_path || bytes_eq path console_path
    then some (fill_tty_stat 0)
    else none

unfoldable pub path_stat : (path : Bytes) → (cwd : ℕ) → RamFs → StatResult
path_stat path cwd fs = elim (dev_path_stat path) [
  | some st ↦ give st
  | none ↦ elim (Fs.resolve path cwd fs) [ none ↦ refuse 2 | some idx ↦ fill_inode_stat fs idx ]
]

unfoldable pub sys_stat : Option Bytes → World → StatResult
sys_stat path w = elim (proper path) [
  | none ↦ refuse 2
  | some p ↦ path_stat p (current_cwd w.sched) w.fs
]

-- `fstat` of an open device.
abbrev pub open_dev_stat : ℕ → StatResult
open_dev_stat rdev = give (device_stat 1 3 0x2180 rdev 4096)

unfoldable pub entry_stat : Option FdEntry → (fd : ℕ) → RamFs → StatResult
entry_stat (some (vfs_file inode offset writable)) fd fs = fill_inode_stat fs inode
entry_stat (some (vfs_dir inode pos)) fd fs = fill_inode_stat fs inode
entry_stat (some stdin) fd fs = give (fill_tty_stat fd)
entry_stat (some stdout) fd fs = give (fill_tty_stat fd)
entry_stat (some stderr) fd fs = give (fill_tty_stat fd)
entry_stat (some dev_null) fd fs = open_dev_stat 259
entry_stat (some dev_zero) fd fs = open_dev_stat 261
entry_stat (some dev_urandom) fd fs = open_dev_stat 265
entry_stat (some (pipe_read idx)) fd fs = refuse 9
entry_stat (some (pipe_write idx)) fd fs = refuse 9
entry_stat (some (socket_pair r w)) fd fs = refuse 9
entry_stat (some empty) fd fs = refuse 9
entry_stat none fd fs = refuse 9

unfoldable pub sys_fstat : (fd : ℕ) → World → StatResult
sys_fstat fd w = entry_stat (current_fd_get fd w.sched) fd w.fs

unfoldable pub sys_newfstatat : (dirfd : ℕ) → Option Bytes → World → StatResult
sys_newfstatat dirfd none w = refuse 14
sys_newfstatat dirfd (some path) w =
    if is_nil path
    then (if dirfd == at_fdcwd then refuse 22 else sys_fstat dirfd w)
    else path_stat path (at_cwd dirfd w.sched) w.fs

-- The result is `addr`, where the buffer stands.
unfoldable pub sys_getcwd : (addr : ℕ) → (buf : Bytes) → World → SysResult × Bytes
sys_getcwd addr buf w =
    let (out, n) = Fs.inode_path (current_cwd w.sched) buf w.fs in
    if length buf == 0
    then (error 14, buf)
    else if n == 0 || leb (length buf) n
    then (error 34, out)
    else (done addr, copy_at n (0 ∷ []) out)

-- The length of an entry: header, name and end mark, rounded up to eight bytes.
abbrev pub reclen_of : ℕ → ℕ
reclen_of n = (19 + n + 1 + 7) / 8 * 8

-- The entry at the head of `buf`, and its length, if there is room.
unfoldable pub write_dirent64 :
    (buf : Bytes) → (ino d_off : ℕ) → (name : Bytes) → (d_type : ℕ) → Option (Bytes × ℕ)
write_dirent64 buf ino d_off name d_type =
    let reclen = reclen_of (length name) in
    let head = le_bytes 8 ino ++ (le_bytes 8 d_off ++ (le_bytes 2 reclen ++ (d_type ∷ name))) in
    if ltb (length buf) reclen
    then none
    else some (head ++ (replicate (reclen - (19 + length name)) 0 ++ drop reclen buf), reclen)

pub record Listing : Type 0 where
  pub buf : Bytes
  pub written : ℕ
  pub entry_idx : ℕ
  pub new_pos : ℕ

-- What `getdents64` does with one entry of the directory.
unfoldable pub list_entry : RamFs → (pos inode_idx : ℕ) → Listing → Listing
list_entry fs pos inode_idx l =
    let n = inode_at fs inode_idx in
    let room = drop l.written l.buf in
    let d_type = if is_dir_kind n.kind then 4 else 8 in
    let skipped : Listing = record l { entry_idx = l.entry_idx + 1 } in
    let shown : Listing =
      elim (write_dirent64 room inode_idx (l.new_pos + 1) (take n.name_len n.name) d_type) [
        | none ↦ skipped
        | some (out, reclen) ↦ record {
          buf = take l.written l.buf ++ out;
          written = l.written + reclen;
          entry_idx = l.entry_idx + 1;
          new_pos = l.new_pos + 1;
        }
      ] in
    if ltb l.entry_idx pos then skipped else shown

unfoldable pub list_entries : RamFs → (pos : ℕ) → List ℕ → Listing → Listing
list_entries fs pos [] l = l
list_entries fs pos (i ∷ is) l = list_entries fs pos is (list_entry fs pos i l)

unfoldable pub list_from : (fd inode pos : ℕ) → Bytes → World → (SysResult × Bytes) × World
list_from fd inode pos buf w =
    let start : Listing = record { buf = buf; written = 0; entry_idx = 0; new_pos = pos } in
    let l = list_entries w.fs pos (Fs.list_dir_indexed inode w.fs) start in
    let sched = if ltb 0 l.written then current_fd_set_dir_pos fd l.new_pos w.sched else w.sched in
    ((done l.written, l.buf), record w { sched = sched })

abbrev pub not_a_dir : Bytes → World → (SysResult × Bytes) × World
not_a_dir buf w = ((error 20, buf), w)

unfoldable pub list_fd : Option FdEntry → (fd : ℕ) → Bytes → World → (SysResult × Bytes) × World
list_fd (some (vfs_dir inode pos)) fd buf w = list_from fd inode pos buf w
list_fd (some (vfs_file inode offset writable)) fd buf w = not_a_dir buf w
list_fd (some stdin) fd buf w = not_a_dir buf w
list_fd (some stdout) fd buf w = not_a_dir buf w
list_fd (some stderr) fd buf w = not_a_dir buf w
list_fd (some dev_null) fd buf w = not_a_dir buf w
list_fd (some dev_zero) fd buf w = not_a_dir buf w
list_fd (some dev_urandom) fd buf w = not_a_dir buf w
list_fd (some (pipe_read idx)) fd buf w = not_a_dir buf w
list_fd (some (pipe_write idx)) fd buf w = not_a_dir buf w
list_fd (some (socket_pair r t)) fd buf w = not_a_dir buf w
list_fd (some empty) fd buf w = not_a_dir buf w
list_fd none fd buf w = ((error 9, buf), w)

unfoldable pub sys_getdents64 : (fd : ℕ) → Bytes → World → (SysResult × Bytes) × World
sys_getdents64 fd buf w =
    let listed = list_fd (current_fd_get fd w.sched) fd buf w in
    if length buf == 0 then ((error 22, buf), w) else listed
