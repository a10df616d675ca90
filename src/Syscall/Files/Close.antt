-- ===== src/Syscall/Files/Close.antt =====
-- `close` and the reference counts.
use ferrugem.Prelude.{
  ℕ, zero, suc, ◌+◌, ◌≡◌, ◌≢◌, ◌⊎◌, ◌∙◌, length, refl, Option, none, some, List, [], ◌∷◌, set,
  arith, leb, Bool-cases, inl, inr, Option-cases,
}
use ferrugem.Ipc.Pool.{Pool, close_pipe_read, close_pipe_write, pipe_write_open}
use ferrugem.Ipc.Pool.Counts.{Balanced-cong}
use ferrugem.Process.Fds.{
  FdTable, FdEntry, empty, stdin, stdout, stderr, dev_null, dev_zero, dev_urandom, vfs_file,
  vfs_dir, pipe_read, pipe_write, socket_pair, entry_at, release, max_fds,
}
use ferrugem.Process.Fds
use ferrugem.Process.Fds.Counts.{
  reads_of, writes_of, reads, writes, readers, writers, Counted, release-Balanced,
}
use ferrugem.Process.Fds.Slots.{close-Emptied}
use ferrugem.Process.Task.{Task}
use ferrugem.Scheduler.{Scheduler, Table, task_at, map_task}
use ferrugem.Scheduler.Table.{task_at-update}
use ferrugem.Scheduler.Current.{current_task, current_fd_close, with_fds}
use ferrugem.Scheduler.Wake.{wake_pipe_waiter, wake_waiter, waiter_at, unblock}
use ferrugem.Syscall.Files.{close_entry, sys_close, wake_if_closed, SysResult, done, error}

-- Emptying a descriptor takes its ends off the counts.
reads-clear :
    (t : FdTable) (fd i : ℕ) → reads t i ≡ reads_of (entry_at t fd) i + reads (set t fd empty) i
reads-clear [] fd i = omega arith
reads-clear (e ∷ rest) zero i = omega arith
reads-clear (e ∷ rest) (suc fd) i = omega (arith, reads-clear rest fd i)

writes-clear :
    (t : FdTable) (fd i : ℕ) → writes t i ≡ writes_of (entry_at t fd) i + writes (set t fd empty) i
writes-clear [] fd i = omega arith
writes-clear (e ∷ rest) zero i = omega arith
writes-clear (e ∷ rest) (suc fd) i = omega (arith, writes-clear rest fd i)

-- The pool after the end of `close`: waking changes no count.
close_entry-pool : (e : FdEntry) (s : Scheduler) → (close_entry e s).pool ≡ release e s.pool
unfolding close_entry release wake_pipe_waiter
close_entry-pool (pipe_write idx) s = ground arith
close_entry-pool (socket_pair r w) s = ground arith
close_entry-pool _ s = refl

sys_close-step :
    (fd : ℕ) (s : Scheduler) (t : Task)
    → current_task s ≡ some t
    → (sys_close fd s).1.pool ≡ elim (Fds.close fd t.fd_table).0 as (λ o. Pool) [
      | none ↦ s.pool
      | some e ↦ release e s.pool
    ]
unfolding sys_close current_fd_close
sys_close-step fd s t running =
    let closed : current_fd_close fd s
        ≡ ((Fds.close fd t.fd_table).0, with_fds (Fds.close fd t.fd_table).1 s) =
      rw (running, current_fd_close) refl in
    elim (Option-cases (Fds.close fd t.fd_table).0) [
      | inl shut ↦ rw (closed, sys_close, shut, closed) refl
      | inr (e, open_) ↦
          rw (closed, sys_close, open_, closed)
            (close_entry-pool e (with_fds (Fds.close fd t.fd_table).1 s))
    ]

-- The pool counts the table that `Fds.close` gives.
sys_close-pool :
    (fd : ℕ) (s : Scheduler) (t : Task) (others : List FdTable)
    → current_task s ≡ some t
    → Counted s.pool (t.fd_table ∷ others)
    → Counted (sys_close fd s).1.pool ((Fds.close fd t.fd_table).1 ∷ others)
unfolding Fds.close
sys_close-pool fd s t others running b =
    let table = t.fd_table in
    rw (sys_close-step fd s t running) (elim (Bool-cases (leb 16 fd)) [
      | inl out ↦ rw (out, Fds.close) b
      | inr within ↦ elim (Bool-cases (Fds.is_empty (entry_at table fd))) [
        | inl shut ↦ rw (within, shut, Fds.close) b
        | inr open_ ↦
            rw (within, open_, Fds.close)
              (release-Balanced (entry_at table fd) s.pool (readers (set table fd empty ∷ others))
                (writers (set table fd empty ∷ others))
                (Balanced-cong s.pool (readers (table ∷ others)) (writers (table ∷ others)) _ _
                  (λ i. omega (arith, reads-clear table fd i))
                  (λ i. omega (arith, writes-clear table fd i)) b))
      ]
    ])

abbrev pub fds_of : Option Task → Option FdTable
fds_of none = none
fds_of (some t) = some t.fd_table

fds_of-some :
    (o : Option Task) (f : FdTable)
    → fds_of o ≡ some f
    → (t : Task) × (o ≡ some t) × (t.fd_table ≡ f)
fds_of-some none f e = cc
fds_of-some (some t) f e = (t, refl, cc)

unblock-fds : (o : Option Task) → fds_of (map_task unblock o) ≡ fds_of o
unfolding unblock
unblock-fds none = refl
unblock-fds (some t) = ground arith

wake_waiter-fds :
    (w : Option ℕ) (tasks : Table) (j : ℕ)
    → fds_of (task_at (wake_waiter w tasks) j) ≡ fds_of (task_at tasks j)
unfolding wake_waiter
wake_waiter-fds none tasks j = refl
wake_waiter-fds (some slot) tasks j =
    rw (task_at-update unblock slot tasks j) (ground (arith, unblock-fds (task_at tasks j)))

-- The descriptors of every task, and the current slot, are the same.
abbrev Keeps : Scheduler → Scheduler → Type 0
Keeps s s' =
    ((j : ℕ) → fds_of (task_at s'.tasks j) ≡ fds_of (task_at s.tasks j)) × (s'.current ≡ s.current)

wake_if_closed-Keeps : (idx : ℕ) (s : Scheduler) → Keeps s (wake_if_closed idx s)
unfolding wake_pipe_waiter
wake_if_closed-Keeps idx s = elim (Bool-cases (pipe_write_open idx s.pool)) [
  | inl e ↦ rw e (λ j. refl, refl)
  | inr e ↦ rw e (λ j. wake_waiter-fds (waiter_at s.pipe_waiters idx) s.tasks j, refl)
]

-- The end of `close` gives back pipe ends and wakes tasks.
close_entry-Keeps : (e : FdEntry) (s : Scheduler) → Keeps s (close_entry e s)
unfolding close_entry
close_entry-Keeps (pipe_write idx) s =
    wake_if_closed-Keeps idx (record s { pool = close_pipe_write idx s.pool })
close_entry-Keeps (socket_pair r w) s =
    wake_if_closed-Keeps w (record s { pool = close_pipe_write w (close_pipe_read r s.pool) })
close_entry-Keeps _ s = (λ j. refl, refl)

-- What `close` of `fd` leaves, for the current task `t`.
pub record Closed (fd : ℕ) (t : Task) (others : List FdTable) (s : Scheduler) (out : SysResult)
    (s' : Scheduler) : Type 0 where
  pub answer :
      ((entry_at t.fd_table fd ≡ empty) × (out ≡ error 9))
      ⊎ ((entry_at t.fd_table fd ≢ empty) × (out ≡ done 0))
  pub task : Task
  pub running : current_task s' ≡ some task
  pub cleared : entry_at task.fd_table fd ≡ empty
  pub kept : (k : ℕ) → fd ≢ k → entry_at task.fd_table k ≡ entry_at t.fd_table k
  pub others_kept :
      (j : ℕ) → s.current ≢ j → fds_of (task_at s'.tasks j) ≡ fds_of (task_at s.tasks j)
  pub counted : Counted s'.pool (task.fd_table ∷ others)

-- The state after `close`: the table that `Fds.close` gives in the current slot.
sys_close-tables :
    (fd : ℕ) (s : Scheduler) (t : Task)
    → current_task s ≡ some t
    → Keeps (with_fds (Fds.close fd t.fd_table).1 s) (sys_close fd s).1
      × ((sys_close fd s).0 ≡ elim (Fds.close fd t.fd_table).0 as (λ o. SysResult) [
        | none ↦ error 9
        | some e ↦ done 0
      ])
unfolding sys_close current_fd_close
sys_close-tables fd s t running =
    let after = with_fds (Fds.close fd t.fd_table).1 s in
    let closed : current_fd_close fd s ≡ ((Fds.close fd t.fd_table).0, after) =
      rw (running, current_fd_close) refl in
    elim (Option-cases (Fds.close fd t.fd_table).0) [
      | inl shut ↦ rw (closed, sys_close, shut, closed) ((λ j. refl, refl), refl)
      | inr (e, open_) ↦ rw (closed, sys_close, open_, closed) (close_entry-Keeps e after, refl)
    ]

-- If the current task's table has sixteen descriptors, and the pool counts it with the others', then
-- `close` answers EBADF exactly when the descriptor is empty or out of range, and 0 otherwise. In
-- either case the descriptor is empty afterwards in the current task's table, no other descriptor of
-- any task has changed, and the pool counts the task's new table with the others'.
pub sys_close-Counted :
    (fd : ℕ) (s : Scheduler) (t : Task) (others : List FdTable)
    → current_task s ≡ some t
    → length t.fd_table ≡ max_fds
    → Counted s.pool (t.fd_table ∷ others)
    → Closed fd t others s (sys_close fd s).0 (sys_close fd s).1
sys_close-Counted fd s t others running len b =
    let table = (Fds.close fd t.fd_table).1 in
    let ((same, slot), result) = sys_close-tables fd s t running in
    let (answer, cleared, kept) = close-Emptied fd t.fd_table len in
    let at_ : fds_of (task_at (with_fds table s).tasks s.current) ≡ some table = ground (
      arith,
      task_at-update (λ x. record x { fd_table = table }) s.current s.tasks s.current,
      running,
    ) in
    let (task, now, has) =
      fds_of-some (task_at (sys_close fd s).1.tasks s.current) table (same s.current ∙ at_) in
    record {
      answer = elim answer [
        | inl (shut, out) ↦ inl (out, result ∙ rw shut refl)
        | inr (e, open_, held) ↦ inr (held, result ∙ rw open_ refl)
      ];
      task = task;
      running = rw slot now;
      cleared = rw has cleared;
      kept = λ k ne. rw has (kept k ne);
      others_kept = λ j ne.
          same j
          ∙ ground
              (arith, task_at-update (λ x. record x { fd_table = table }) s.current s.tasks j, ne);
      counted = rw has (sys_close-pool fd s t others running b);
    }
