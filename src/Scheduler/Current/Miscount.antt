-- ===== src/Scheduler/Current/Miscount.antt =====
-- `dup` and the reference counts.
use ferrugem.Prelude.{
  ℕ, zero, suc, ◌+◌, ◌<◌, ◌≡◌, refl, true, some, List, [], ◌∷◌, length, set, find_in, find_in-some,
  arith, Option-cases, inl, inr, ap,
}
use ferrugem.Ipc.Pool.{max_pipes}
use ferrugem.Process.Fds.{FdTable, FdEntry, empty, pipe_read, entry_at, is_empty, max_fds}
use ferrugem.Process.Fds
use ferrugem.Process.Fds.Counts.{reads_of, reads, Counted}
use ferrugem.Process.Task.{Task}
use ferrugem.Scheduler.{Scheduler}
use ferrugem.Scheduler.Table.{task_at-update}
use ferrugem.Scheduler.Current.{
  current_task, current_fd_get, current_fd_alloc, current_fd_dup, with_fds,
}

-- An entry put in an empty slot adds its ends.
reads-set :
    (t : FdTable) (fd : ℕ) (e : FdEntry) (i : ℕ)
    → fd < length t
    → is_empty (entry_at t fd) ≡ true
    → reads (set t fd e) i ≡ reads_of e i + reads t i
reads-set [] fd e i h free = absurd (omega arith)
reads-set (empty ∷ rest) zero e i h free = omega arith
reads-set (x ∷ rest) (suc fd) e i h free = omega (arith, reads-set rest fd e i (omega arith) free)
reads-set (_ ∷ rest) zero e i h free = absurd (cc free)

-- What `dup` does where the old descriptor is open and another is free.
dup-step :
    (s : Scheduler) (t : Task) (oldfd fd : ℕ) (e : FdEntry)
    → current_task s ≡ some t
    → Fds.get oldfd t.fd_table ≡ some e
    → find_in 3 13 (λ i. is_empty (entry_at t.fd_table i)) ≡ some fd
    → current_fd_dup oldfd s ≡ (some fd, with_fds (set t.fd_table fd e) s)
unfolding current_fd_dup current_fd_get current_fd_alloc Fds.alloc
dup-step s t oldfd fd e running old found =
    let got : current_fd_get oldfd s ≡ some e = rw (running, current_fd_get) old in
    let given : Fds.alloc e t.fd_table ≡ (some fd, set t.fd_table fd e) =
      rw (found, Fds.alloc) refl in
    rw (got, current_fd_dup, running, current_fd_alloc, given) refl

current_task-with_fds :
    (s : Scheduler) (t : Task) (fds : FdTable)
    → current_task s ≡ some t
    → current_task (with_fds fds s) ≡ some (record t { fd_table = fds })
current_task-with_fds s t fds running =
    ground (arith, task_at-update (λ t. record t { fd_table = fds }) s.current s.tasks s.current)

-- Where the current task duplicates a read end of a pipe of the pool, the pool counts its table of
-- sixteen with the others', and a descriptor is free, it gets that descriptor and the pool no
-- longer counts right: the copy is not counted.
pub current_fd_dup-miscounts :
    (s : Scheduler) (t : Task) (oldfd idx fd : ℕ) (others : List FdTable)
    → current_task s ≡ some t
    → length t.fd_table ≡ max_fds
    → Fds.get oldfd t.fd_table ≡ some (pipe_read idx)
    → idx < max_pipes
    → (Fds.alloc (pipe_read idx) t.fd_table).0 ≡ some fd
    → Counted s.pool (t.fd_table ∷ others)
    → let (got, s') = current_fd_dup oldfd s in
      (got ≡ some fd)
      × ((t' : Task) × (current_task s' ≡ some t') × ¬ Counted s'.pool (t'.fd_table ∷ others))
unfolding Fds.alloc
current_fd_dup-miscounts s t oldfd idx fd others running len old inside found counted =
    elim (Option-cases (find_in 3 13 (λ i. is_empty (entry_at t.fd_table i)))) [
      | inl e ↦ absurd (ground (arith, e, found))
      | inr (k, e) ↦
          let same : k ≡ fd = ground (arith, e, found) in
          let first = find_in-some 3 13 (λ i. is_empty (entry_at t.fd_table i)) k e in
          let added =
            reads-set t.fd_table k (pipe_read idx) idx (omega (arith, first.below, len))
              first.passes in
          rw (dup-step s t oldfd k (pipe_read idx) running old e) (
            ap some same,
            (
              _,
              current_task-with_fds s t (set t.fd_table k (pipe_read idx)) running,
              λ after. absurd (
                  ground (
                    arith,
                    added,
                    (counted.slots idx inside).readers,
                    (after.slots idx inside).readers,
                  )),
            ),
          )
    ]
