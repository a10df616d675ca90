-- ===== src/Process/Fds.antt =====
-- File descriptor tables of kernel/src/process/mod.rs. What releases a pipe end takes the pipe pool
-- and returns it.
pub mod Slots
pub mod Counts
pub mod Fork
pub mod Tests
use ferrugem.Prelude.{
  ℕ, zero, suc, ◌-◌, Bool, true, false, Option, none, some, List, [], ◌∷◌, leb, if◌then◌else◌,
  get_or, set, replicate, find_in,
}
use ferrugem.Ipc.Pool.{Pool, close_pipe_read, close_pipe_write, dup_pipe_read, dup_pipe_write}

abbrev pub max_fds : ℕ
max_fds = 16

pub data FdEntry : Type 0 where
  empty stdin stdout stderr dev_null dev_zero dev_urandom : FdEntry
  vfs_file : (inode offset : ℕ) → (writable : Bool) → FdEntry
  vfs_dir : (inode pos : ℕ) → FdEntry
  pipe_read : (idx : ℕ) → FdEntry
  pipe_write : (idx : ℕ) → FdEntry
  socket_pair : (read_idx write_idx : ℕ) → FdEntry

-- `FdTable::entries`.
abbrev pub FdTable : Type 0
FdTable = List FdEntry

abbrev pub entry_at : FdTable → ℕ → FdEntry
entry_at t fd = get_or t fd empty

unfoldable pub new : FdTable
new = set (set (set (replicate max_fds empty) 0 stdin) 1 stdout) 2 stderr

abbrev pub is_empty : FdEntry → Bool
is_empty empty = true
is_empty _ = false

-- The first free slot from 3 on takes the entry.
unfoldable pub alloc : FdEntry → FdTable → Option ℕ × FdTable
alloc e t = elim (find_in 3 (max_fds - 3) (λ i. is_empty (entry_at t i))) [
  | none ↦ (none, t)
  | some i ↦ (some i, set t i e)
]

unfoldable pub get : ℕ → FdTable → Option FdEntry
get fd t =
    let e = entry_at t fd in if leb max_fds fd then none else if is_empty e then none else some e

with_offset : ℕ → FdEntry → FdEntry
with_offset new_offset (vfs_file inode offset writable) = vfs_file inode new_offset writable
with_offset new_offset e = e

-- `get_mut` finds no entry out of range, and `set` changes none there.
unfoldable pub set_offset : ℕ → ℕ → FdTable → FdTable
unfolding with_offset
set_offset fd new_offset t = set t fd (with_offset new_offset (entry_at t fd))

with_pos : ℕ → FdEntry → FdEntry
with_pos new_pos (vfs_dir inode pos) = vfs_dir inode new_pos
with_pos new_pos e = e

unfoldable pub set_dir_pos : ℕ → ℕ → FdTable → FdTable
unfolding with_pos
set_dir_pos fd new_pos t = set t fd (with_pos new_pos (entry_at t fd))

-- The pipe ends of an entry, given back to the pool.
unfoldable pub release : FdEntry → Pool → Pool
release (pipe_read idx) pool = close_pipe_read idx pool
release (pipe_write idx) pool = close_pipe_write idx pool
release (socket_pair read_idx write_idx) pool =
    close_pipe_write write_idx (close_pipe_read read_idx pool)
release _ pool = pool

unfoldable pub alloc_at : ℕ → FdEntry → FdTable → Pool → Option ℕ × FdTable × Pool
alloc_at fd e t pool =
    if leb max_fds fd then (none, t, pool) else (some fd, set t fd e, release (entry_at t fd) pool)

-- The caller releases the pipe ends of the entry that it gets.
unfoldable pub close : ℕ → FdTable → Option FdEntry × FdTable
close fd t =
    let e = entry_at t fd in
    if leb max_fds fd then (none, t) else if is_empty e then (none, t) else (some e, set t fd empty)

unfoldable pub close_all : FdTable → Pool → FdTable × Pool
close_all [] pool = ([], pool)
close_all (e ∷ rest) pool =
    let (rest', pool') = close_all rest (release e pool) in (empty ∷ rest', pool')

-- A copy of an entry, counted in the pool: the loop of `scheduler::spawn_fork`.
unfoldable pub retain : FdEntry → Pool → Pool
retain (pipe_read idx) pool = dup_pipe_read idx pool
retain (pipe_write idx) pool = dup_pipe_write idx pool
retain (socket_pair read_idx write_idx) pool =
    dup_pipe_write write_idx (dup_pipe_read read_idx pool)
retain _ pool = pool

unfoldable pub retain_all : FdTable → Pool → Pool
retain_all [] pool = pool
retain_all (e ∷ rest) pool = retain_all rest (retain e pool)
