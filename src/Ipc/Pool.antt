-- ===== src/Ipc/Pool.antt =====
-- The pipe pool of kernel/src/ipc/mod.rs: `POOL`, a static array of `MAX_PIPES` slots, each with
-- its reference counts. An operation returns the pool after it. Indices are `u8` in the source.
pub mod Slots
pub mod Polled
pub mod Counts
mod Tests
use ferrugem.Prelude.{
  ℕ, zero, suc, ◌+◌, ◌-◌, Bool, true, false, ◌&&◌, not, Option, none, some, List, [], ◌∷◌, ◌==◌,
  ltb, if◌then◌else◌, get_or, set, replicate,
}
use ferrugem.Ipc.Pipe
use ferrugem.Ipc.Pipe.{Pipe}

abbrev pub max_pipes : ℕ
max_pipes = 8

pub record PipeSlot : Type 0 where
  pub pipe : Pipe
  pub in_use : Bool
  pub read_count : ℕ
  pub write_count : ℕ

abbrev pub Pool : Type 0
Pool = List PipeSlot

unfoldable pub new_slot : PipeSlot
new_slot = record { pipe = Pipe.new; in_use = false; read_count = 0; write_count = 0 }

-- The pool as the kernel starts.
unfoldable pub initial : Pool
initial = replicate max_pipes new_slot

-- `POOL[i]`.
abbrev pub slot_at : Pool → ℕ → PipeSlot
slot_at pool i = get_or pool i new_slot

unfoldable pub fresh_slot : PipeSlot
fresh_slot = record { pipe = Pipe.new; in_use = true; read_count = 1; write_count = 1 }

-- The search for a free slot from index `i` on.
alloc_from : Pool → ℕ → Option ℕ × Pool
unfolding fresh_slot
alloc_from [] i = (none, [])
alloc_from (slot ∷ rest) i =
    let (found, rest') = alloc_from rest (i + 1) in
    if slot.in_use then (found, slot ∷ rest') else (some i, fresh_slot ∷ rest)

unfoldable pub alloc_pipe : Pool → Option ℕ × Pool
unfolding alloc_from
alloc_pipe pool = alloc_from pool 0

-- What one more or one fewer open end does to the slot of a pipe in use.
unfoldable pub retain_read : PipeSlot → PipeSlot
retain_read s = if ltb s.read_count 255 then record s { read_count = s.read_count + 1 } else s

unfoldable pub retain_write : PipeSlot → PipeSlot
retain_write s = if ltb s.write_count 255 then record s { write_count = s.write_count + 1 } else s

free_if_closed : PipeSlot → PipeSlot
free_if_closed s =
    if s.read_count == 0 && s.write_count == 0 then record s { in_use = false } else s

unfoldable pub release_read : PipeSlot → PipeSlot
unfolding free_if_closed
release_read s =
    free_if_closed (if ltb 0 s.read_count then record s { read_count = s.read_count - 1 } else s)

unfoldable pub release_write : PipeSlot → PipeSlot
unfolding free_if_closed
release_write s =
    free_if_closed (if ltb 0 s.write_count then record s { write_count = s.write_count - 1 } else s)

-- The guard that the four reference operations share.
unfoldable pub update_slot : (PipeSlot → PipeSlot) → ℕ → Pool → Pool
update_slot f idx pool =
    if ltb idx max_pipes && (slot_at pool idx).in_use
    then set pool idx (f (slot_at pool idx))
    else pool

unfoldable pub dup_pipe_read : ℕ → Pool → Pool
dup_pipe_read = update_slot retain_read

unfoldable pub dup_pipe_write : ℕ → Pool → Pool
dup_pipe_write = update_slot retain_write

unfoldable pub close_pipe_read : ℕ → Pool → Pool
close_pipe_read = update_slot release_read

unfoldable pub close_pipe_write : ℕ → Pool → Pool
close_pipe_write = update_slot release_write

unfoldable pub pipe_write_open : ℕ → Pool → Bool
pipe_write_open idx pool = ltb idx max_pipes && ltb 0 (slot_at pool idx).write_count

unfoldable pub pipe_read_open : ℕ → Pool → Bool
pipe_read_open idx pool = ltb idx max_pipes && ltb 0 (slot_at pool idx).read_count

unfoldable pub pipe_write : ℕ → List ℕ → Pool → Pool × ℕ
pipe_write idx bytes pool =
    let slot = slot_at pool idx in
    let (p, n) = Pipe.write slot.pipe bytes in
    if ltb idx max_pipes && slot.in_use
    then (set pool idx (record slot { pipe = p }), n)
    else (pool, 0)

-- The pool, the caller's buffer, and the number of bytes read.
unfoldable pub pipe_read : ℕ → List ℕ → Pool → Pool × List ℕ × ℕ
pipe_read idx slots pool =
    let slot = slot_at pool idx in
    let (p, slots', n) = Pipe.read slot.pipe slots in
    if ltb idx max_pipes && slot.in_use
    then (set pool idx (record slot { pipe = p }), slots', n)
    else (pool, slots, 0)

unfoldable pub pipe_has_data : ℕ → Pool → Bool
pipe_has_data idx pool = ltb idx max_pipes && not (Pipe.is_empty (slot_at pool idx).pipe)
