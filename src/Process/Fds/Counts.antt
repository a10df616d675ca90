-- ===== src/Process/Fds/Counts.antt =====
-- Reference counting: the pool's counts against the pipe ends that descriptors stand for.
use ferrugem.Prelude.{ℕ, zero, suc, ◌+◌, ◌≡◌, refl, List, [], ◌∷◌, arith}
use ferrugem.Ipc.Pool.{Pool, close_pipe_read}
use ferrugem.Ipc.Pool.Counts.{
  one, Balanced, Balanced-cong, close_pipe_read-Balanced, close_pipe_write-Balanced,
}
use ferrugem.Process.Fds.{
  FdEntry, empty, pipe_read, pipe_write, socket_pair, FdTable, entry_at, release, close_all,
}

-- How many read ends, and write ends, of pipe `i` an entry stands for.
abbrev pub reads_of : FdEntry → ℕ → ℕ
reads_of (pipe_read idx) i = one idx i
reads_of (socket_pair r w) i = one r i
reads_of _ i = 0

abbrev pub writes_of : FdEntry → ℕ → ℕ
writes_of (pipe_write idx) i = one idx i
writes_of (socket_pair r w) i = one w i
writes_of _ i = 0

abbrev pub reads : FdTable → ℕ → ℕ
reads [] i = 0
reads (e ∷ rest) i = reads_of e i + reads rest i

abbrev pub writes : FdTable → ℕ → ℕ
writes [] i = 0
writes (e ∷ rest) i = writes_of e i + writes rest i

-- The ends that several tables stand for together.
abbrev pub readers : List FdTable → ℕ → ℕ
readers [] i = 0
readers (t ∷ ts) i = reads t i + readers ts i

abbrev pub writers : List FdTable → ℕ → ℕ
writers [] i = 0
writers (t ∷ ts) i = writes t i + writers ts i

-- The pool counts, pipe by pipe, exactly the ends that the tables stand for, and a slot is in use
-- exactly when there is one.
abbrev pub Counted : Pool → List FdTable → Type 0
Counted pool tables = Balanced pool (readers tables) (writers tables)

pub release-Balanced :
    (e : FdEntry) (pool : Pool) (r w : ℕ → ℕ)
    → Balanced pool (λ i. reads_of e i + r i) (λ i. writes_of e i + w i)
    → Balanced (release e pool) r w
unfolding release
release-Balanced (pipe_read idx) pool r w b =
    close_pipe_read-Balanced idx pool r w (
      Balanced-cong pool (λ i. one idx i + r i) (λ i. 0 + w i) _ _ (λ i. refl) (λ i. omega arith) b)
release-Balanced (pipe_write idx) pool r w b =
    close_pipe_write-Balanced idx pool r w (
      Balanced-cong pool (λ i. 0 + r i) (λ i. one idx i + w i) _ _ (λ i. omega arith) (λ i. refl) b)
release-Balanced (socket_pair a z) pool r w b =
    close_pipe_write-Balanced z (close_pipe_read a pool) r w
      (close_pipe_read-Balanced a pool r (λ i. one z i + w i) b)
release-Balanced _ pool r w b =
    Balanced-cong pool (λ i. 0 + r i) (λ i. 0 + w i) r w (λ i. omega arith) (λ i. omega arith) b

close_all-Balanced :
    (t : FdTable) (pool : Pool) (r w : ℕ → ℕ)
    → Balanced pool (λ i. reads t i + r i) (λ i. writes t i + w i)
    → Balanced (close_all t pool).1 r w
unfolding close_all
close_all-Balanced [] pool r w b =
    Balanced-cong pool (λ i. 0 + r i) (λ i. 0 + w i) r w (λ i. omega arith) (λ i. omega arith) b
close_all-Balanced (e ∷ rest) pool r w b = close_all-Balanced rest (release e pool) r w (
    release-Balanced e pool (λ i. reads rest i + r i) (λ i. writes rest i + w i)
      (Balanced-cong pool (λ i. reads_of e i + reads rest i + r i)
        (λ i. writes_of e i + writes rest i + w i) _ _ (λ i. omega arith) (λ i. omega arith) b))

close_all-empty : (t : FdTable) (pool : Pool) (j : ℕ) → entry_at (close_all t pool).0 j ≡ empty
unfolding close_all
close_all-empty [] pool j = refl
close_all-empty (e ∷ rest) pool zero = refl
close_all-empty (e ∷ rest) pool (suc j) = close_all-empty rest (release e pool) j

-- When a task's table is closed, the pool that counted it together with the others' tables counts
-- the others' alone: so each of its pipe ends is given back once, and a pipe is freed exactly when
-- no other table has an end of it. Every entry of the closed table is empty.
pub close_all-Counted :
    (t : FdTable) (others : List FdTable) (pool : Pool)
    → Counted pool (t ∷ others)
    → Counted (close_all t pool).1 others × ((j : ℕ) → entry_at (close_all t pool).0 j ≡ empty)
close_all-Counted t others pool b =
    (close_all-Balanced t pool (readers others) (writers others) b, close_all-empty t pool)
