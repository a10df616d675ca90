-- ===== src/Process/Fds/Tests.antt =====
-- Descriptor tables at concrete inputs.
use ferrugem.Prelude.{
  ℕ, zero, suc, ◌-◌, ◌<◌, ◌≤◌, ◌≡◌, refl, ◌⊎◌, false, none, some, [], ◌∷◌, ◌==◌, if◌then◌else◌, set,
  replicate, length, First, arith,
}
use ferrugem.Ipc.Pool.{Pool, max_pipes, slot_at, initial, alloc_pipe, new_slot, fresh_slot}
use ferrugem.Ipc.Pool.Counts.{Agrees}
use ferrugem.Process.Fds.{
  FdTable, empty, dev_null, pipe_read, pipe_write, entry_at, is_empty, max_fds, new, alloc, get,
  close, close_all, retain_all,
}
use ferrugem.Process.Fds.Slots.{alloc_lem, close_lem}
use ferrugem.Process.Fds.Counts.{readers, writers, reads, writes, Counted, close_all-Counted}
use ferrugem.Process.Fds.Fork.{Fits, retain_all-Counted}

-- Both ends of pipe 0 in descriptors 3 and 4.
abbrev pub with_pipe : FdTable
with_pipe = set (set new 3 (pipe_read 0)) 4 (pipe_write 0)

abbrev pub one_pipe : Pool
one_pipe = (alloc_pipe initial).1

unused-slot : (n k : ℕ) → slot_at (replicate n new_slot) k ≡ new_slot
unused-slot zero k = refl
unused-slot (suc n) zero = refl
unused-slot (suc n) (suc k) = unused-slot n k

one_pipe-slots :
    (i : ℕ)
    → i < max_pipes
    → Agrees (slot_at one_pipe i) (readers (with_pipe ∷ []) i) (writers (with_pipe ∷ []) i)
unfolding alloc_pipe initial new_slot fresh_slot new
one_pipe-slots zero h = record { readers = refl; writers = refl; used = refl }
one_pipe-slots (suc k) h = record {
  readers = ground (arith, unused-slot 7 k);
  writers = ground (arith, unused-slot 7 k);
  used = ground (arith, unused-slot 7 k);
}

pub one_pipe-Counted : Counted one_pipe (with_pipe ∷ [])
unfolding alloc_pipe initial new_slot
one_pipe-Counted = record { size = refl; slots = one_pipe-slots }

pub with_pipe-Fits :
    Fits (reads with_pipe) (writes with_pipe) (readers (with_pipe ∷ [])) (writers (with_pipe ∷ []))
unfolding new
with_pipe-Fits i h = ground arith

close_all-Counted_example :
    Counted (close_all with_pipe one_pipe).1 []
    × ((j : ℕ) → entry_at (close_all with_pipe one_pipe).0 j ≡ empty)
close_all-Counted_example = close_all-Counted with_pipe [] one_pipe one_pipe-Counted

retain_all-Counted_example : Counted (retain_all with_pipe one_pipe) (with_pipe ∷ with_pipe ∷ [])
retain_all-Counted_example =
    retain_all-Counted with_pipe [] one_pipe with_pipe-Fits one_pipe-Counted

new-length : length new ≡ max_fds
unfolding new
new-length = refl

alloc_lem_example :
    (((j : ℕ) → 3 ≤ j → j < max_fds → is_empty (entry_at new j) ≡ false)
      × (alloc dev_null new ≡ (none, new)))
    ⊎ ((fd : ℕ) × First 3 (max_fds - 3) (λ i. is_empty (entry_at new i)) fd
        × ((alloc dev_null new).0 ≡ some fd)
        × ((j : ℕ) → get j (alloc dev_null new).1 ≡ (if fd == j then some dev_null else get j new)))
alloc_lem_example = alloc_lem dev_null new new-length refl

close_lem_example :
    ((close 1 new).0 ≡ get 1 new)
    × ((j : ℕ) → get j (close 1 new).1 ≡ (if 1 == j then none else get j new))
close_lem_example = close_lem 1 new new-length
