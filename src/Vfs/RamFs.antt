-- ===== src/Vfs/RamFs.antt =====
-- The RAM file system of kernel/src/vfs/ramfs.rs: its inodes, names, path resolution and
-- permissions. `inodes` is a list of `MAX_INODES`; an index out of range, at which the source panics,
-- reads the empty inode and writes nothing.
pub mod Ops
pub mod Inodes
pub mod Refused
pub mod Sizes
mod Tests
pub mod Keeps
pub mod Files
use Prim.Native.Nat.{bit_and}
use ferrugem.Prelude.{
  ℕ, zero, suc, ◌+◌, ◌-◌, ◌/◌, ◌^◌, Bool, true, false, ◌&&◌, ◌||◌, not, Option, none, some, List,
  [], ◌∷◌, ◌++◌, ◌==◌, leb, ltb, min, if◌then◌else◌, get_or, set, take, drop, length, replicate,
  find_in,
}
use ferrugem.Vfs.Path.{
  Bytes, slash, dot, dot_dot, is_nil, bytes_eq, is_absolute, trim_start, split, split_parent,
}
unfoldable pub use ferrugem.Bytes.{copy_at}

abbrev pub max_inodes : ℕ
max_inodes = 64

abbrev pub max_name : ℕ
max_name = 64

abbrev pub max_data : ℕ
max_data = 4096

pub data InodeKind : Type 0 where
  file dir : InodeKind

-- `data` is `bytes` here.
pub record Inode : Type 0 where
  pub used : Bool
  pub kind : InodeKind
  pub name : Bytes
  pub name_len : ℕ
  pub parent : ℕ
  pub uid : ℕ
  pub gid : ℕ
  pub mode : ℕ
  pub bytes : Bytes
  pub size : ℕ

abbrev pub is_dir_kind : InodeKind → Bool
is_dir_kind dir = true
is_dir_kind file = false

-- The mode is 0o644.
unfoldable pub empty : Inode
empty = record {
  used = false;
  kind = file;
  name = replicate max_name 0;
  name_len = 0;
  parent = 0;
  uid = 0;
  gid = 0;
  mode = 420;
  bytes = replicate max_data 0;
  size = 0;
}

-- A name longer than the field is cut.
unfoldable pub set_name : Bytes → Inode → Inode
unfolding copy_at
set_name s n =
    let k = min (length s) max_name in record n { name = copy_at 0 (take k s) n.name; name_len = k }

unfoldable pub name_eq : Inode → Bytes → Bool
name_eq n s = n.name_len == length s && bytes_eq (take n.name_len n.name) s

abbrev pub RamFs : Type 0
RamFs = List Inode

-- `inodes[i]`.
abbrev pub inode_at : RamFs → ℕ → Inode
inode_at fs i = get_or fs i empty

unfoldable pub update_inode : (Inode → Inode) → ℕ → RamFs → RamFs
update_inode f i fs = set fs i (f (inode_at fs i))

unfoldable pub new : RamFs
new = replicate max_inodes empty

-- The mode is 0o755.
unfoldable pub init_root : RamFs → RamFs
unfolding update_inode
init_root fs =
    update_inode
      (λ r. record r {
        used = true;
        kind = dir;
        name = set r.name 0 slash;
        name_len = 1;
        parent = 0;
        uid = 0;
        gid = 0;
        mode = 493;
      })
      0 fs

unfoldable pub alloc : RamFs → Option ℕ × RamFs
unfolding empty
alloc fs = elim (find_in 1 (max_inodes - 1) (λ i. not (inode_at fs i).used)) [
  | none ↦ (none, fs)
  | some i ↦ (some i, set fs i (record empty { used = true }))
]

-- An entry of the directory `parent`.
abbrev pub is_child : RamFs → (parent i : ℕ) → Bool
is_child fs parent i = (inode_at fs i).used && (inode_at fs i).parent == parent && not (i == parent)

unfoldable pub lookup_in : RamFs → ℕ → Bytes → Option ℕ
lookup_in fs parent name =
    if bytes_eq name dot
    then some parent
    else if bytes_eq name dot_dot
    then some (inode_at fs parent).parent
    else find_in 0 max_inodes (λ i. is_child fs parent i && name_eq (inode_at fs i) name)

-- The loop of `resolve` over the parts of a path.
unfoldable pub walk : RamFs → List Bytes → ℕ → Option ℕ
walk fs [] cur = some cur
walk fs (part ∷ parts) cur =
    let stay = walk fs parts cur in
    let step : Option ℕ = elim (lookup_in fs cur part) [
      | none ↦ none
      | some next ↦ walk fs parts next
    ] in
    if is_nil part || bytes_eq part dot then stay else step

unfoldable pub resolve : RamFs → Bytes → ℕ → Option ℕ
unfolding walk
resolve fs path cwd =
    let cur = if is_absolute path then 0 else cwd in
    let stripped = trim_start path in
    if is_nil stripped then some cur else walk fs (split stripped) cur

-- The directory that `path` names an entry of, and the entry's name.
unfoldable pub resolve_parent : RamFs → Bytes → ℕ → Option ℕ × Bytes
unfolding resolve
resolve_parent fs path cwd =
    let (pp, name) = split_parent path in (resolve fs (if is_nil pp then dot else pp) cwd, name)

-- `op` is 4 to read and 2 to write.
unfoldable pub perm : RamFs → (idx uid gid op : ℕ) → Bool
perm fs idx uid gid op =
    let n = inode_at fs idx in
    let bits =
      if n.uid == uid then n.mode / 2 ^ 6 else if n.gid == gid then n.mode / 2 ^ 3 else n.mode in
    if uid == 0 then true else not (bit_and bits op == 0)
