-- ===== src/Vfs/RamFs/Inodes.antt =====
-- The operations of kernel/src/vfs/ramfs.rs by inode, and the listings.
use ferrugem.Prelude.{
  ℕ, zero, suc, ◌+◌, ◌-◌, ◌%◌, ◌^◌, Bool, ◌&&◌, ◌||◌, not, Option, none, some, List, [], ◌∷◌, ◌==◌,
  leb, ltb, min, if◌then◌else◌, take, drop, length,
}
use ferrugem.Vfs.Path.{Bytes, slash}
use ferrugem.Vfs.RamFs.{
  RamFs, Inode, is_dir_kind, inode_at, update_inode, is_child, resolve, perm, copy_at, max_data,
  max_inodes,
}

-- The entries of a directory, in the order in which the callback gets them, from inode `i` on.
children_from : RamFs → (dir_idx i rounds : ℕ) → List ℕ
children_from fs dir_idx i zero = []
children_from fs dir_idx i (suc rounds) =
    let rest = children_from fs dir_idx (i + 1) rounds in
    if is_child fs dir_idx i then i ∷ rest else rest

unfoldable pub list_dir_indexed : RamFs → (dir_idx : ℕ) → List ℕ
unfolding children_from
list_dir_indexed fs dir_idx =
    if leb max_inodes dir_idx || not (inode_at fs dir_idx).used
    then []
    else if not (is_dir_kind (inode_at fs dir_idx).kind)
    then []
    else children_from fs dir_idx 0 max_inodes

unfoldable pub list_dir : Bytes → (cwd : ℕ) → RamFs → List ℕ
unfolding children_from
list_dir path cwd fs = elim (resolve fs path cwd) [
  | none ↦ []
  | some dir_idx ↦
      if not (is_dir_kind (inode_at fs dir_idx).kind)
      then []
      else children_from fs dir_idx 0 max_inodes
]

-- The inodes from `idx` up to the root, which is left out.
unfoldable pub ancestors : RamFs → (depth idx : ℕ) → List ℕ
ancestors fs zero idx = []
ancestors fs (suc depth) idx =
    let above = ancestors fs depth (inode_at fs idx).parent in
    if idx == 0
    then []
    else if not (inode_at fs idx).used
    then []
    else idx ∷ (if (inode_at fs idx).parent == idx then [] else above)

-- One round of the second loop of `inode_path`: a separator and a name, as far as there is room.
unfoldable pub put_name : Inode → Bytes × ℕ → Bytes × ℕ
put_name n (buf, pos) =
    let buf' = if ltb pos (length buf) then copy_at pos (slash ∷ []) buf else buf in
    let pos' = if ltb pos (length buf) then pos + 1 else pos in
    let clen = min n.name_len (length buf - pos') in
    (copy_at pos' (take clen n.name) buf', pos' + clen)

-- The list is the lowest inode first, and is written from its end.
put_names : RamFs → List ℕ → Bytes × ℕ → Bytes × ℕ
put_names fs [] out = out
put_names fs (idx ∷ above) out = put_name (inode_at fs idx) (put_names fs above out)

-- `inode_path`; the stack of the source holds 16 inodes.
unfoldable pub inode_path : RamFs → (idx : ℕ) → Bytes → Bytes × ℕ
unfolding put_names
inode_path fs idx buf =
    if idx == 0
    then (if ltb 0 (length buf) then copy_at 0 (slash ∷ []) buf else buf, 1)
    else put_names fs (ancestors fs 16 idx) (buf, 0)

unfoldable pub is_dir : Bytes → (cwd : ℕ) → RamFs → Option Bool
is_dir path cwd fs = elim (resolve fs path cwd) [
  | none ↦ none
  | some idx ↦ some (is_dir_kind (inode_at fs idx).kind)
]

unfoldable pub get_inode : RamFs → ℕ → Option Inode
get_inode fs idx =
    if ltb idx max_inodes && (inode_at fs idx).used then some (inode_at fs idx) else none

unfoldable pub open_check : Bytes → (cwd uid gid : ℕ) → Bool → RamFs → Option ℕ
open_check path cwd uid gid writing fs = elim (resolve fs path cwd) [
  | none ↦ none
  | some idx ↦
      if is_dir_kind (inode_at fs idx).kind
      then none
      else if not (perm fs idx uid gid (if writing then 2 else 4))
      then none
      else some idx
]

-- The inodes that `inode_read` and `inode_write` work on.
abbrev pub is_file : RamFs → ℕ → Bool
is_file fs idx =
    not (leb max_inodes idx || not (inode_at fs idx).used || is_dir_kind (inode_at fs idx).kind)

-- The buffer after the call, and the number of bytes read.
unfoldable pub inode_read : RamFs → (idx offset : ℕ) → Bytes → Bytes × ℕ
inode_read fs idx offset buf =
    let n = inode_at fs idx in
    let start = min offset n.size in
    let len = min (length buf) (n.size - start) in
    if is_file fs idx then (copy_at 0 (take len (drop start n.bytes)) buf, len) else (buf, 0)

abbrev pub patched : (offset end : ℕ) → Bytes → Inode → Inode
patched offset end src n = record n {
  bytes = copy_at offset (take (end - offset) src) n.bytes;
  size = if ltb n.size end then end else n.size;
}

-- The sum of offset and length is a `usize`, which wraps.
unfoldable pub inode_write : (idx offset : ℕ) → Bytes → RamFs → RamFs × ℕ
inode_write idx offset src fs =
    let end = min ((offset + length src) % 2 ^ 64) max_data in
    if not (is_file fs idx)
    then (fs, 0)
    else if end - offset == 0
    then (fs, 0)
    else (update_inode (patched offset end src) idx fs, end - offset)
