-- ===== src/Ipc/Pool/Polled.antt =====
-- What a read of a pipe does, told by what the pool says of the pipe before.
use ferrugem.Prelude.{ℕ, ◌<◌, ◌≡◌, arith, true, not, ◌==◌, List, length, get_or-set_self}
use ferrugem.Ipc.Pipe
use ferrugem.Ipc.Pipe.{Pipe}
use ferrugem.Ipc.Pipe.Bulk.{IsValid, read_lem, is_empty-held}
use ferrugem.Ipc.Pool.{
  Pool, max_pipes, new_slot, slot_at, pipe_read, pipe_has_data, pipe_write_open,
}

pub pipe_read-zero :
    (idx : ℕ) (slots : List ℕ) (pool : Pool)
    → idx < max_pipes
    → (slot_at pool idx).in_use ≡ true
    → IsValid (slot_at pool idx).pipe
    → 0 < length slots
    → ((pipe_read idx slots pool).2 == 0) ≡ not (pipe_has_data idx pool)
unfolding pipe_read pipe_has_data
pipe_read-zero idx slots pool h used v some_room =
    ground (arith, read_lem slots v, is_empty-held v, h, used)

pub pipe_write_open-pipe_read :
    (idx : ℕ) (slots : List ℕ) (pool : Pool)
    → length pool ≡ max_pipes
    → idx < max_pipes
    → (slot_at pool idx).in_use ≡ true
    → pipe_write_open idx (pipe_read idx slots pool).0 ≡ pipe_write_open idx pool
unfolding pipe_read pipe_write_open
pipe_write_open-pipe_read idx slots pool len h used =
    let slot = slot_at pool idx in
    ground (
      arith,
      get_or-set_self pool idx (record slot { pipe = (Pipe.read slot.pipe slots).0 }) new_slot,
      h,
      used,
      len,
    )
