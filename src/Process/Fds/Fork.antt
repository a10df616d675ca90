-- ===== src/Process/Fds/Fork.antt =====
-- The reference counts across `fork`, which copies the parent's table and counts each copied end.
use ferrugem.Prelude.{ℕ, ◌+◌, ◌<◌, ◌≤◌, List, [], ◌∷◌, arith}
use ferrugem.Ipc.Pool.{Pool, max_pipes, dup_pipe_read}
use ferrugem.Ipc.Pool.Counts.{
  one, Balanced, Balanced-cong, dup_pipe_read-Balanced, dup_pipe_write-Balanced,
}
use ferrugem.Process.Fds.{FdEntry, pipe_read, pipe_write, socket_pair, FdTable, retain, retain_all}
use ferrugem.Process.Fds.Counts.{reads_of, writes_of, reads, writes, readers, writers, Counted}

-- The ends `a`, `b` that are to be copied are among the `r`, `w` that are counted, and the counts
-- stay within the source's `u8`.
abbrev pub Fits : (a b r w : ℕ → ℕ) → Type 0
Fits a b r w =
    (i : ℕ) → i < max_pipes → (a i ≤ r i) × (b i ≤ w i) × (a i + r i ≤ 255) × (b i + w i ≤ 255)

retain-Balanced :
    (e : FdEntry) (pool : Pool) (r w : ℕ → ℕ)
    → Fits (reads_of e) (writes_of e) r w
    → Balanced pool r w
    → Balanced (retain e pool) (λ i. reads_of e i + r i) (λ i. writes_of e i + w i)
unfolding retain
retain-Balanced (pipe_read idx) pool r w fits b =
    Balanced-cong (dup_pipe_read idx pool) (λ i. one idx i + r i) w _ _ (λ i. omega arith)
      (λ i. omega arith) (dup_pipe_read-Balanced idx pool r w (λ h. ground (arith, fits idx h)) b)
retain-Balanced (pipe_write idx) pool r w fits b =
    Balanced-cong _ r (λ i. one idx i + w i) _ _ (λ i. omega arith) (λ i. omega arith)
      (dup_pipe_write-Balanced idx pool r w (λ h. ground (arith, fits idx h)) b)
retain-Balanced (socket_pair x z) pool r w fits b =
    dup_pipe_write-Balanced z (dup_pipe_read x pool) (λ i. one x i + r i) w
      (λ h. ground (arith, fits z h))
      (dup_pipe_read-Balanced x pool r w (λ h. ground (arith, fits x h)) b)
retain-Balanced _ pool r w fits b =
    Balanced-cong pool r w _ _ (λ i. omega arith) (λ i. omega arith) b

retain_all-Balanced :
    (t : FdTable) (pool : Pool) (r w : ℕ → ℕ)
    → Fits (reads t) (writes t) r w
    → Balanced pool r w
    → Balanced (retain_all t pool) (λ i. reads t i + r i) (λ i. writes t i + w i)
unfolding retain_all
retain_all-Balanced [] pool r w fits b =
    Balanced-cong pool r w _ _ (λ i. omega arith) (λ i. omega arith) b
retain_all-Balanced (e ∷ rest) pool r w fits b =
    Balanced-cong (retain_all rest (retain e pool)) (λ i. reads rest i + (reads_of e i + r i))
      (λ i. writes rest i + (writes_of e i + w i)) _ _ (λ i. omega arith) (λ i. omega arith)
      (retain_all-Balanced rest (retain e pool) (λ i. reads_of e i + r i) (λ i. writes_of e i + w i)
        (λ i h. omega (arith, fits i h))
        (retain-Balanced e pool r w (λ i h. omega (arith, fits i h)) b))

-- If the pool counts the parent's table and the others', and no count would pass 255, then after
-- `fork` it counts the child's copy too.
pub retain_all-Counted :
    (t : FdTable) (others : List FdTable) (pool : Pool)
    → Fits (reads t) (writes t) (readers (t ∷ others)) (writers (t ∷ others))
    → Counted pool (t ∷ others)
    → Counted (retain_all t pool) (t ∷ t ∷ others)
retain_all-Counted t others pool fits b =
    retain_all-Balanced t pool (readers (t ∷ others)) (writers (t ∷ others)) fits b
