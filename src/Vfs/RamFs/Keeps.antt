-- ===== src/Vfs/RamFs/Keeps.antt =====
-- Every operation keeps the file system valid.
use Prim.Native.Nat.{bit_and}
use ferrugem.Prelude.{ℕ, Bool, true, false, if◌then◌else◌, inl, inr, Option-cases}
use ferrugem.Vfs.Path.{Bytes}
use ferrugem.Vfs.RamFs.{
  RamFs, update_inode, file, dir, set_name, resolve, resolve_parent, lookup_in,
}
use ferrugem.Vfs.RamFs.Ops.{
  create, store_bytes, write, mkdir, rmdir, touch, unlink, chmod, chown, rename, free_inode, move,
}
use ferrugem.Vfs.RamFs.Refused.{
  Request, serve, write_file, make_dir, remove_dir, touch_file, unlink_file, change_mode,
  change_owner, rename_to,
}
use ferrugem.Vfs.RamFs.Sizes.{
  IsValid, update-IsValid, set_name-Fits, store_bytes-Fits, create-IsValid,
}

abbrev Ok : Bool × RamFs → Type 0
Ok (done, fs) = IsValid fs

if_lem :
    (b : Bool) (x y : Bool × RamFs) → IsValid x.1 → IsValid y.1 → IsValid (if b then x else y).1
if_lem true x y p q = p
if_lem false x y p q = q

free_inode-IsValid : (i : ℕ) (fs : RamFs) → IsValid fs → IsValid (free_inode i fs)
free_inode-IsValid i fs v =
    update-IsValid (λ n. record n { used = false }) i fs
      (λ n f. record {
        bytes_len = f.bytes_len;
        size_le = f.size_le;
        name_room = f.name_room;
        name_le = f.name_le;
      })
      v

move-IsValid :
    (i parent : ℕ) (name : Bytes) (fs : RamFs) → IsValid fs → IsValid (move i parent name fs)
move-IsValid i parent name fs v =
    update-IsValid (λ n. set_name name (record n { parent = parent })) i fs
      (λ n f.
        set_name-Fits name (record n { parent = parent })
          (record {
            bytes_len = f.bytes_len;
            size_le = f.size_le;
            name_room = f.name_room;
            name_le = f.name_le;
          }))
      v

write-Ok :
    (path : Bytes) (cwd : ℕ) (src : Bytes) (uid gid : ℕ) (fs : RamFs)
    → IsValid fs
    → Ok (write path cwd src uid gid fs)
unfolding write
write-Ok path cwd src uid gid fs v = elim (Option-cases (resolve fs path cwd)) [
  | inr (i, e) ↦
      let stored = update-IsValid (store_bytes src) i fs (store_bytes-Fits src) v in
      rw (e, write) (search (if_lem, v, stored))
  | inl e ↦ elim (Option-cases (resolve_parent fs path cwd).0) [
    | inl gone ↦ rw (e, write, gone) v
    | inr (parent, found) ↦
        let made = create-IsValid file parent uid gid 420 (resolve_parent fs path cwd).1 fs v in
        elim (Option-cases (create file parent uid gid 420 (resolve_parent fs path cwd).1 fs).0) [
          | inl full ↦ rw (e, write, found, full) (search (if_lem, v, made))
          | inr (i, fresh) ↦
              let stored = update-IsValid (store_bytes src) i _ (store_bytes-Fits src) made in
              rw (e, write, found, fresh) (search (if_lem, v, stored))
        ]
  ]
]

mkdir-Ok :
    (path : Bytes) (cwd uid gid mode : ℕ) (fs : RamFs)
    → IsValid fs
    → Ok (mkdir path cwd uid gid mode fs)
unfolding mkdir
mkdir-Ok path cwd uid gid mode fs v = elim (Option-cases (resolve_parent fs path cwd).0) [
  | inl gone ↦ rw (gone, mkdir) v
  | inr (parent, found) ↦
      let made =
        create-IsValid dir parent uid gid (bit_and mode 511) (resolve_parent fs path cwd).1 fs v in
      rw (found, mkdir) (search (if_lem, v, made))
]

touch-Ok :
    (path : Bytes) (cwd uid gid : ℕ) (fs : RamFs) → IsValid fs → Ok (touch path cwd uid gid fs)
unfolding touch
touch-Ok path cwd uid gid fs v = elim (Option-cases (resolve_parent fs path cwd).0) [
  | inl gone ↦ rw (gone, touch) (search (if_lem, v))
  | inr (parent, found) ↦
      let made = create-IsValid file parent uid gid 420 (resolve_parent fs path cwd).1 fs v in
      rw (found, touch) (search (if_lem, v, made))
]

rmdir-Ok :
    (path : Bytes) (cwd uid gid : ℕ) (fs : RamFs) → IsValid fs → Ok (rmdir path cwd uid gid fs)
unfolding rmdir
rmdir-Ok path cwd uid gid fs v = elim (Option-cases (resolve fs path cwd)) [
  | inl e ↦ rw (e, rmdir) v
  | inr (i, e) ↦ let freed = free_inode-IsValid i fs v in rw (e, rmdir) (search (if_lem, v, freed))
]

unlink-Ok :
    (path : Bytes) (cwd uid gid : ℕ) (fs : RamFs) → IsValid fs → Ok (unlink path cwd uid gid fs)
unfolding unlink
unlink-Ok path cwd uid gid fs v = elim (Option-cases (resolve fs path cwd)) [
  | inl e ↦ rw (e, unlink) v
  | inr (i, e) ↦ let freed = free_inode-IsValid i fs v in rw (e, unlink) (search (if_lem, v, freed))
]

with_mode-IsValid :
    (mode i : ℕ) (fs : RamFs)
    → IsValid fs
    → IsValid (update_inode (λ n. record n { mode = mode }) i fs)
with_mode-IsValid mode i fs v =
    update-IsValid (λ n. record n { mode = mode }) i fs
      (λ n f. record {
        bytes_len = f.bytes_len;
        size_le = f.size_le;
        name_room = f.name_room;
        name_le = f.name_le;
      })
      v

with_owner-IsValid :
    (uid gid i : ℕ) (fs : RamFs)
    → IsValid fs
    → IsValid (update_inode (λ n. record n { uid = uid; gid = gid }) i fs)
with_owner-IsValid uid gid i fs v =
    update-IsValid (λ n. record n { uid = uid; gid = gid }) i fs
      (λ n f. record {
        bytes_len = f.bytes_len;
        size_le = f.size_le;
        name_room = f.name_room;
        name_le = f.name_le;
      })
      v

chmod-Ok :
    (path : Bytes) (cwd mode caller : ℕ) (fs : RamFs)
    → IsValid fs
    → Ok (chmod path cwd mode caller fs)
unfolding chmod
chmod-Ok path cwd mode caller fs v = elim (Option-cases (resolve fs path cwd)) [
  | inl e ↦ rw (e, chmod) v
  | inr (i, e) ↦
      let changed = with_mode-IsValid (bit_and mode 511) i fs v in
      rw (e, chmod) (search (if_lem, v, changed))
]

chown-Ok :
    (path : Bytes) (cwd new_uid new_gid caller : ℕ) (fs : RamFs)
    → IsValid fs
    → Ok (chown path cwd new_uid new_gid caller fs)
unfolding chown
chown-Ok path cwd new_uid new_gid caller fs v = elim (Option-cases (resolve fs path cwd)) [
  | inl e ↦ rw (e, chown) (search (if_lem, v))
  | inr (i, e) ↦
      let changed = with_owner-IsValid new_uid new_gid i fs v in
      rw (e, chown) (search (if_lem, v, changed))
]

rename-Ok :
    (src dst : Bytes) (cwd uid gid : ℕ) (fs : RamFs)
    → IsValid fs
    → Ok (rename src dst cwd uid gid fs)
unfolding rename
rename-Ok src dst cwd uid gid fs v = elim (Option-cases (resolve fs src cwd)) [
  | inl e ↦ rw (e, rename) v
  | inr (i, e) ↦ elim (Option-cases (resolve_parent fs dst cwd).0) [
    | inl gone ↦ rw (e, rename, gone) (search (if_lem, v))
    | inr (parent, found) ↦
        let name = (resolve_parent fs dst cwd).1 in
        elim (Option-cases (lookup_in fs parent name)) [
          | inl free ↦
              let moved = move-IsValid i parent name fs v in
              rw (e, rename, found, free) (search (if_lem, v, moved))
          | inr (j, taken) ↦
              let moved =
                move-IsValid i parent name (free_inode j fs) (free_inode-IsValid j fs v) in
              rw (e, rename, found, taken) (search (if_lem, v, moved))
        ]
  ]
]

-- Every request, granted or refused, keeps a valid file system valid: the table keeps its 64
-- inodes, and names and contents stay within their arrays.
pub serve-IsValid : (r : Request) (fs : RamFs) → IsValid fs → IsValid (serve r fs).1
unfolding serve
serve-IsValid (write_file path cwd src uid gid) fs v = write-Ok path cwd src uid gid fs v
serve-IsValid (make_dir path cwd uid gid mode) fs v = mkdir-Ok path cwd uid gid mode fs v
serve-IsValid (remove_dir path cwd uid gid) fs v = rmdir-Ok path cwd uid gid fs v
serve-IsValid (touch_file path cwd uid gid) fs v = touch-Ok path cwd uid gid fs v
serve-IsValid (unlink_file path cwd uid gid) fs v = unlink-Ok path cwd uid gid fs v
serve-IsValid (change_mode path cwd mode caller) fs v = chmod-Ok path cwd mode caller fs v
serve-IsValid (change_owner path cwd new_uid new_gid caller) fs v =
    chown-Ok path cwd new_uid new_gid caller fs v
serve-IsValid (rename_to src dst cwd uid gid) fs v = rename-Ok src dst cwd uid gid fs v
