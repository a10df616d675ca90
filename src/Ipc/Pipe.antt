-- ===== src/Ipc/Pipe.antt =====
-- `Pipe` of kernel/src/ipc/mod.rs: a byte ring of `PIPE_BUF` cells, written and read in bulk.
pub mod Bulk
pub mod Stream
mod Tests
use ferrugem.Prelude.{ℕ, ◌+◌, ◌%◌, Bool, List, [], ◌∷◌, ◌==◌, if◌then◌else◌, get_or, set, replicate}

abbrev pub pipe_buf : ℕ
pipe_buf = 4096

pub record Pipe : Type 0 where
  pub buf : List ℕ
  pub head : ℕ
  pub tail : ℕ

unfoldable pub new : Pipe
new = record { buf = replicate pipe_buf 0; head = 0; tail = 0 }

pub is_empty : Pipe → Bool
is_empty p = p.head == p.tail

pub is_full : Pipe → Bool
is_full p = (p.head + 1) % pipe_buf == p.tail

-- The loop of `write`, `written` bytes in.
write_from : Pipe → List ℕ → ℕ → Pipe × ℕ
write_from p [] written = (p, written)
write_from p (b ∷ rest) written =
    let next : ℕ = (p.head + 1) % pipe_buf in
    let more : Pipe × ℕ =
      write_from (record p { buf = set p.buf p.head b; head = next }) rest (written + 1) in
    if next == p.tail then (p, written) else more

-- How many bytes of the data went in, and the pipe after it.
pub write : Pipe → List ℕ → Pipe × ℕ
unfolding write_from
write p bytes = write_from p bytes 0

-- The loop of `read` over the slots of the caller's buffer, `n` bytes in.
read_from : Pipe → List ℕ → ℕ → Pipe × List ℕ × ℕ
read_from p [] n = (p, [], n)
read_from p (slot ∷ rest) n =
    let (p', rest', n') = read_from (record p { tail = (p.tail + 1) % pipe_buf }) rest (n + 1) in
    if p.head == p.tail then (p, slot ∷ rest, n) else (p', get_or p.buf p.tail 0 ∷ rest', n')

-- The pipe afterwards, the caller's buffer afterwards, and how many of its slots were filled.
pub read : Pipe → List ℕ → Pipe × List ℕ × ℕ
unfolding read_from
read p slots = read_from p slots 0
