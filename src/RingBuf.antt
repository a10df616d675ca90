-- ===== src/RingBuf.antt =====
-- kernel/src/drivers/ring_buf.rs: the byte ring that the keyboard and serial drivers share.
-- `RingBuf<N>` takes its capacity `n` as an argument.
pub mod Queue
pub mod Fifo
mod Tests
use ferrugem.Prelude.{
  ℕ, zero, ◌+◌, ◌%◌, Bool, true, false, Option, none, some, List, [], ◌∷◌, ◌==◌, if◌then◌else◌,
  get_or, set, replicate,
}

pub record RingBuf : Type 0 where
  pub buf : List ℕ
  pub head : ℕ
  pub tail : ℕ

pub new : ℕ → RingBuf
new n = record { buf = replicate n 0; head = 0; tail = 0 }

-- The source's `false` for a full ring is the first component.
pub push : ℕ → RingBuf → ℕ → Bool × RingBuf
push n r b =
    let next : ℕ = (r.head + 1) % n in
    if next == r.tail
    then (false, r)
    else (true, record r { buf = set r.buf r.head b; head = next })

pub pop : ℕ → RingBuf → Option ℕ × RingBuf
pop n r =
    if r.head == r.tail
    then (none, r)
    else (some (get_or r.buf r.tail 0), record r { tail = (r.tail + 1) % n })

pub is_empty : RingBuf → Bool
is_empty r = r.head == r.tail

-- What the two sides of a driver do: the interrupt handler pushes, the reader pops.
pub data Op : Type 0 where
  put : ℕ → Op
  get : Op

pub data Reply : Type 0 where
  stored : Bool → Reply
  byte : Option ℕ → Reply

pub run : ℕ → RingBuf → List Op → List Reply
run n r [] = []
run n r (put b ∷ ops) = let (done, r') = push n r b in stored done ∷ run n r' ops
run n r (get ∷ ops) = let (b, r') = pop n r in byte b ∷ run n r' ops
