-- ===== src/Vfs/RamFs/Ops.antt =====
-- The operations by path of kernel/src/vfs/ramfs.rs. What changes the file system returns whether it
-- succeeded and the file system after it.
use Prim.Native.Nat.{bit_and}
use ferrugem.Prelude.{
  ℕ, Bool, true, false, ◌&&◌, not, Option, none, some, ◌==◌, min, if◌then◌else◌, take, length,
  find_in,
}
use ferrugem.Vfs.Path.{Bytes}
use ferrugem.Vfs.RamFs.{
  RamFs, Inode, InodeKind, file, dir, is_dir_kind, inode_at, update_inode, alloc, lookup_in,
  resolve, resolve_parent, perm, set_name, copy_at, max_data, max_inodes,
}

-- What `write`, `mkdir` and `touch` set of a new inode.
unfoldable pub fill : InodeKind → (parent uid gid mode : ℕ) → Bytes → Inode → Inode
fill kind parent uid gid mode name n =
    set_name name (record n { kind = kind; parent = parent; uid = uid; gid = gid; mode = mode })

-- The new inode of `write`, `mkdir` and `touch`, if there is room.
unfoldable pub create : InodeKind → (parent uid gid mode : ℕ) → Bytes → RamFs → Option ℕ × RamFs
create kind parent uid gid mode name fs =
    let (found, fs') = alloc fs in
    elim found [
      | none ↦ (none, fs')
      | some i ↦ (some i, update_inode (fill kind parent uid gid mode name) i fs')
    ]

-- The end of `write`.
unfoldable pub store_bytes : Bytes → Inode → Inode
store_bytes src n =
    let len = min (length src) max_data in
    record n { bytes = copy_at 0 (take len src) n.bytes; size = len }

unfoldable pub write : Bytes → (cwd : ℕ) → Bytes → (uid gid : ℕ) → RamFs → Bool × RamFs
write path cwd src uid gid fs = elim (resolve fs path cwd) [
  | some i ↦
      if is_dir_kind (inode_at fs i).kind
      then (false, fs)
      else if not (perm fs i uid gid 2)
      then (false, fs)
      else (true, update_inode (store_bytes src) i fs)
  | none ↦
      let (found, name) = resolve_parent fs path cwd in
      elim found [
        | none ↦ (false, fs)
        | some parent ↦
            let (made, fs') = create file parent uid gid 420 name fs in
            let done : Bool × RamFs = elim made [
              | none ↦ (false, fs')
              | some i ↦ (true, update_inode (store_bytes src) i fs')
            ] in
            if not (perm fs parent uid gid 2) then (false, fs) else done
      ]
]

-- `read_bytes`.
unfoldable pub read_bytes : RamFs → ℕ → Bytes
read_bytes fs idx = take (inode_at fs idx).size (inode_at fs idx).bytes

unfoldable pub read_at : Bytes → (cwd uid gid : ℕ) → RamFs → Option Bytes
read_at path cwd uid gid fs = elim (resolve fs path cwd) [
  | none ↦ none
  | some idx ↦
      if is_dir_kind (inode_at fs idx).kind
      then none
      else if not (perm fs idx uid gid 4)
      then none
      else some (read_bytes fs idx)
]

abbrev pub is_found : Option ℕ → Bool
is_found none = false
is_found (some i) = true

unfoldable pub mkdir : Bytes → (cwd uid gid mode : ℕ) → RamFs → Bool × RamFs
mkdir path cwd uid gid mode fs =
    let (found, name) = resolve_parent fs path cwd in
    elim found [
      | none ↦ (false, fs)
      | some parent ↦
          let (made, fs') = create dir parent uid gid (bit_and mode 511) name fs in
          if not (is_dir_kind (inode_at fs parent).kind)
          then (false, fs)
          else if not (perm fs parent uid gid 2)
          then (false, fs)
          else if is_found (lookup_in fs parent name)
          then (false, fs)
          else (is_found made, fs')
    ]

-- Whether some inode has `idx` as its parent.
abbrev pub has_children : RamFs → ℕ → Bool
has_children fs idx = is_found (
    find_in 0 max_inodes
      (λ i. not (i == idx) && (inode_at fs i).used && (inode_at fs i).parent == idx))

abbrev pub free_inode : ℕ → RamFs → RamFs
free_inode = update_inode (λ n. record n { used = false })

unfoldable pub rmdir : Bytes → (cwd uid gid : ℕ) → RamFs → Bool × RamFs
rmdir path cwd uid gid fs = elim (resolve fs path cwd) [
  | none ↦ (false, fs)
  | some idx ↦
      if idx == 0
      then (false, fs)
      else if not (is_dir_kind (inode_at fs idx).kind)
      then (false, fs)
      else if has_children fs idx
      then (false, fs)
      else if not (perm fs (inode_at fs idx).parent uid gid 2)
      then (false, fs)
      else (true, free_inode idx fs)
]

unfoldable pub touch : Bytes → (cwd uid gid : ℕ) → RamFs → Bool × RamFs
touch path cwd uid gid fs =
    let (found, name) = resolve_parent fs path cwd in
    if is_found (resolve fs path cwd) then (true, fs) else elim found [
      | none ↦ (false, fs)
      | some parent ↦
          let (made, fs') = create file parent uid gid 420 name fs in
          if not (perm fs parent uid gid 2) then (false, fs) else (is_found made, fs')
    ]

unfoldable pub unlink : Bytes → (cwd uid gid : ℕ) → RamFs → Bool × RamFs
unlink path cwd uid gid fs = elim (resolve fs path cwd) [
  | none ↦ (false, fs)
  | some idx ↦
      let n = inode_at fs idx in
      if idx == 0
      then (false, fs)
      else if is_dir_kind n.kind
      then (false, fs)
      else if not (uid == 0) && not (n.uid == uid) && not (perm fs n.parent uid gid 2)
      then (false, fs)
      else (true, free_inode idx fs)
]

unfoldable pub chmod : Bytes → (cwd mode caller_uid : ℕ) → RamFs → Bool × RamFs
chmod path cwd mode caller_uid fs = elim (resolve fs path cwd) [
  | none ↦ (false, fs)
  | some idx ↦
      if not (caller_uid == 0) && not ((inode_at fs idx).uid == caller_uid)
      then (false, fs)
      else (true, update_inode (λ n. record n { mode = bit_and mode 511 }) idx fs)
]

unfoldable pub chown : Bytes → (cwd new_uid new_gid caller_uid : ℕ) → RamFs → Bool × RamFs
chown path cwd new_uid new_gid caller_uid fs =
    if not (caller_uid == 0) then (false, fs) else elim (resolve fs path cwd) [
      | none ↦ (false, fs)
      | some idx ↦ (true, update_inode (λ n. record n { uid = new_uid; gid = new_gid }) idx fs)
    ]

-- The last step of `rename`.
abbrev pub move : (src_idx dst_parent : ℕ) → Bytes → RamFs → RamFs
move src_idx dst_parent dst_name =
    update_inode (λ n. set_name dst_name (record n { parent = dst_parent })) src_idx

unfoldable pub rename : (src dst : Bytes) → (cwd uid gid : ℕ) → RamFs → Bool × RamFs
rename src dst cwd uid gid fs = elim (resolve fs src cwd) [
  | none ↦ (false, fs)
  | some src_idx ↦
      let (found, dst_name) = resolve_parent fs dst cwd in
      let onto : Bool × RamFs = elim found [
        | none ↦ (false, fs)
        | some dst_parent ↦
            let moved : Bool × RamFs = elim (lookup_in fs dst_parent dst_name) [
              | none ↦ (true, move src_idx dst_parent dst_name fs)
              | some dst_idx ↦
                  if dst_idx == src_idx
                  then (true, fs)
                  else if is_dir_kind (inode_at fs dst_idx).kind
                  then (false, fs)
                  else (true, move src_idx dst_parent dst_name (free_inode dst_idx fs))
            ] in
            if not (perm fs dst_parent uid gid 2) then (false, fs) else moved
      ] in
      if src_idx == 0
      then (false, fs)
      else if not (perm fs (inode_at fs src_idx).parent uid gid 2)
      then (false, fs)
      else onto
]
