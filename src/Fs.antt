-- ===== src/Fs.antt =====
-- kernel/src/fs/mod.rs: the file system of the kernel, one static RAM file system. `ROOT_FS` is
-- passed in, and returned where it changes. A function that hands an inode to a callback returns the
-- inode here. `init`, which makes the first files, is not modelled.
use ferrugem.Prelude.{ℕ, Bool, false, Option, none, some, List, if◌then◌else◌}
use ferrugem.Vfs.Path.{Bytes}
use ferrugem.Vfs.RamFs.{RamFs, Inode}
use ferrugem.Vfs.RamFs
use ferrugem.Vfs.RamFs.Ops
use ferrugem.Vfs.RamFs.Inodes

unfoldable pub write : Bytes → Bytes → RamFs → Bool × RamFs
write path src fs = Ops.write path 0 src 0 0 fs

unfoldable pub read : Bytes → RamFs → Option Bytes
read path fs = Ops.read_at path 0 0 0 fs

unfoldable pub mkdir : Bytes → (cwd uid gid mode : ℕ) → RamFs → Bool × RamFs
mkdir = Ops.mkdir

unfoldable pub rmdir : Bytes → (cwd uid gid : ℕ) → RamFs → Bool × RamFs
rmdir = Ops.rmdir

unfoldable pub touch : Bytes → (cwd uid gid : ℕ) → RamFs → Bool × RamFs
touch = Ops.touch

unfoldable pub unlink : Bytes → (cwd uid gid : ℕ) → RamFs → Bool × RamFs
unlink = Ops.unlink

unfoldable pub write_as : Bytes → (cwd : ℕ) → Bytes → (uid gid : ℕ) → RamFs → Bool × RamFs
write_as = Ops.write

unfoldable pub read_as : Bytes → (cwd uid gid : ℕ) → RamFs → Option Bytes
read_as = Ops.read_at

unfoldable pub chmod : Bytes → (cwd mode caller_uid : ℕ) → RamFs → Bool × RamFs
chmod = Ops.chmod

unfoldable pub chown : Bytes → (cwd new_uid new_gid caller_uid : ℕ) → RamFs → Bool × RamFs
chown = Ops.chown

unfoldable pub rename : (src dst : Bytes) → (cwd uid gid : ℕ) → RamFs → Bool × RamFs
rename = Ops.rename

unfoldable pub resolve : Bytes → (cwd : ℕ) → RamFs → Option ℕ
resolve path cwd fs = RamFs.resolve fs path cwd

unfoldable pub inode_path : ℕ → Bytes → RamFs → Bytes × ℕ
inode_path idx buf fs = Inodes.inode_path fs idx buf

unfoldable pub is_dir : Bytes → (cwd : ℕ) → RamFs → Option Bool
is_dir = Inodes.is_dir

unfoldable pub list_dir : Bytes → (cwd : ℕ) → RamFs → List ℕ
list_dir = Inodes.list_dir

-- The inode that the callback gets, if any.
unfoldable pub stat_at : Bytes → (cwd : ℕ) → RamFs → Option Inode
stat_at path cwd fs = elim (RamFs.resolve fs path cwd) [
  | none ↦ none
  | some idx ↦ Inodes.get_inode fs idx
]

-- `Some(true)`.
abbrev pub is_yes : Option Bool → Bool
is_yes none = false
is_yes (some b) = b

unfoldable pub open_dir : Bytes → (cwd : ℕ) → RamFs → Option ℕ
open_dir path cwd fs =
    if is_yes (Inodes.is_dir path cwd fs) then RamFs.resolve fs path cwd else none

unfoldable pub stat_inode_by_idx : ℕ → RamFs → Option Inode
stat_inode_by_idx idx fs = Inodes.get_inode fs idx

unfoldable pub list_dir_indexed : ℕ → RamFs → List ℕ
list_dir_indexed dir_inode fs = Inodes.list_dir_indexed fs dir_inode

unfoldable pub open_inode : Bytes → (cwd uid gid : ℕ) → Bool → RamFs → Option ℕ
open_inode = Inodes.open_check

unfoldable pub inode_size : ℕ → RamFs → ℕ
inode_size idx fs = elim (Inodes.get_inode fs idx) [ none ↦ 0 | some n ↦ n.size ]

unfoldable pub read_inode : (idx offset : ℕ) → Bytes → RamFs → Bytes × ℕ
read_inode idx offset buf fs = Inodes.inode_read fs idx offset buf

unfoldable pub write_inode : (idx offset : ℕ) → Bytes → RamFs → RamFs × ℕ
write_inode = Inodes.inode_write
