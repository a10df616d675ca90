-- ===== src/Vfs/RamFs/Refused.antt =====
-- The operations by path as one type of requests, and what a refused request leaves behind.
use Prim.Native.Nat.{bit_and}
use ferrugem.Prelude.{ℕ, ◌≡◌, Bool, false, not, none, arith, Option-cases, inl, inr, find_in}
use ferrugem.Vfs.Path.{Bytes}
use ferrugem.Vfs.RamFs.{RamFs, InodeKind, file, dir, alloc, resolve_parent, inode_at}
use ferrugem.Vfs.RamFs.Ops.{create, write, mkdir, rmdir, touch, unlink, chmod, chown, rename}

-- A call of an operation that changes the file system, with its arguments.
pub data Request : Type 0 where
  write_file : (path : Bytes) (cwd : ℕ) (src : Bytes) (uid gid : ℕ) → Request
  make_dir : (path : Bytes) (cwd uid gid mode : ℕ) → Request
  remove_dir : (path : Bytes) (cwd uid gid : ℕ) → Request
  touch_file : (path : Bytes) (cwd uid gid : ℕ) → Request
  unlink_file : (path : Bytes) (cwd uid gid : ℕ) → Request
  change_mode : (path : Bytes) (cwd mode caller_uid : ℕ) → Request
  change_owner : (path : Bytes) (cwd new_uid new_gid caller_uid : ℕ) → Request
  rename_to : (src dst : Bytes) (cwd uid gid : ℕ) → Request

unfoldable pub serve : Request → RamFs → Bool × RamFs
serve (write_file path cwd src uid gid) fs = write path cwd src uid gid fs
serve (make_dir path cwd uid gid mode) fs = mkdir path cwd uid gid mode fs
serve (remove_dir path cwd uid gid) fs = rmdir path cwd uid gid fs
serve (touch_file path cwd uid gid) fs = touch path cwd uid gid fs
serve (unlink_file path cwd uid gid) fs = unlink path cwd uid gid fs
serve (change_mode path cwd mode caller_uid) fs = chmod path cwd mode caller_uid fs
serve (change_owner path cwd new_uid new_gid caller_uid) fs =
    chown path cwd new_uid new_gid caller_uid fs
serve (rename_to src dst cwd uid gid) fs = rename src dst cwd uid gid fs

alloc-refused : (fs : RamFs) → (alloc fs).0 ≡ none → (alloc fs).1 ≡ fs
unfolding alloc
alloc-refused fs h = elim (Option-cases (find_in 1 63 (λ i. not (inode_at fs i).used))) [
  | inl e ↦ ground (arith, e)
  | inr (i, e) ↦ ground (arith, e)
]

create-refused :
    (kind : InodeKind) (parent uid gid mode : ℕ) (name : Bytes) (fs : RamFs)
    → (create kind parent uid gid mode name fs).0 ≡ none
    → (create kind parent uid gid mode name fs).1 ≡ fs
unfolding create
create-refused kind parent uid gid mode name fs h = ground (arith, alloc-refused fs)

write-refused :
    (path : Bytes) (cwd : ℕ) (src : Bytes) (uid gid : ℕ) (fs : RamFs)
    → (write path cwd src uid gid fs).0 ≡ false
    → (write path cwd src uid gid fs).1 ≡ fs
unfolding write
write-refused path cwd src uid gid fs h =
    let (found, name) = resolve_parent fs path cwd in
    elim (Option-cases found) [
      | inl e ↦ ground (arith, e)
      | inr (parent, e) ↦ ground (arith, e, create-refused file parent uid gid 420 name fs)
    ]

mkdir-refused :
    (path : Bytes) (cwd uid gid mode : ℕ) (fs : RamFs)
    → (mkdir path cwd uid gid mode fs).0 ≡ false
    → (mkdir path cwd uid gid mode fs).1 ≡ fs
unfolding mkdir
mkdir-refused path cwd uid gid mode fs h =
    let (found, name) = resolve_parent fs path cwd in
    elim (Option-cases found) [
      | inl e ↦ ground (arith, e)
      | inr (parent, e) ↦
          ground (arith, e, create-refused dir parent uid gid (bit_and mode 511) name fs)
    ]

touch-refused :
    (path : Bytes) (cwd uid gid : ℕ) (fs : RamFs)
    → (touch path cwd uid gid fs).0 ≡ false
    → (touch path cwd uid gid fs).1 ≡ fs
unfolding touch
touch-refused path cwd uid gid fs h =
    let (found, name) = resolve_parent fs path cwd in
    elim (Option-cases found) [
      | inl e ↦ ground (arith, e)
      | inr (parent, e) ↦ ground (arith, e, create-refused file parent uid gid 420 name fs)
    ]

rename-refused :
    (src dst : Bytes) (cwd uid gid : ℕ) (fs : RamFs)
    → (rename src dst cwd uid gid fs).0 ≡ false
    → (rename src dst cwd uid gid fs).1 ≡ fs
unfolding rename
rename-refused src dst cwd uid gid fs h = ground arith

-- A request that is refused, for a missing path, a wrong kind, a permission, a name that is taken or
-- a full table, leaves the file system exactly as it was.
pub serve-refused : (r : Request) (fs : RamFs) → (serve r fs).0 ≡ false → (serve r fs).1 ≡ fs
unfolding serve rmdir unlink chmod chown
serve-refused (write_file path cwd src uid gid) fs h = write-refused path cwd src uid gid fs h
serve-refused (make_dir path cwd uid gid mode) fs h = mkdir-refused path cwd uid gid mode fs h
serve-refused (remove_dir path cwd uid gid) fs h = ground arith
serve-refused (touch_file path cwd uid gid) fs h = touch-refused path cwd uid gid fs h
serve-refused (unlink_file path cwd uid gid) fs h = ground arith
serve-refused (change_mode path cwd mode caller_uid) fs h = ground arith
serve-refused (change_owner path cwd new_uid new_gid caller_uid) fs h = ground arith
serve-refused (rename_to src dst cwd uid gid) fs h = rename-refused src dst cwd uid gid fs h
