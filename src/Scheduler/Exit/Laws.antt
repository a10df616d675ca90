-- ===== src/Scheduler/Exit/Laws.antt =====
-- `exit_current` and `waitpid` together: what a parent learns of a child that ends.
use ferrugem.Prelude.{
  ℕ, ◌+◌, ◌*◌, ◌/◌, ◌%◌, ◌<◌, ◌≡◌, refl, ◌≢◌, ◌∙◌, sym, Bool, true, false, Option, none, some, ◌==◌,
  if◌then◌else◌, arith, Option-cases, inl, inr, ◌⊎◌, find_in, find_in-some, find_in-none, set, ap,
  ap₂, ℕ_discrete,
}
use Prim.Native.Nat.{bit_and}
use ferrugem.Bits.Masks.{and-low}
use ferrugem.Ipc.Pool.{Pool}
use ferrugem.Process.Signal.{sigchld}
use ferrugem.Process.Task.{Task, is_ready, is_zombie, ready, blocked, exit}
use ferrugem.Scheduler.{Scheduler, Table, max_tasks, task_at, map_task}
use ferrugem.Scheduler.Table.{task_at-set, task_at-map}
use ferrugem.Scheduler.Wake.{
  u64_max, wake_child, wake_child_waiters, signal_parent, wake_closed_pipe_readers,
}
use ferrugem.Scheduler.Wake.Laws.{
  Same, Kept, KeptTable, Kept-trans, signal_parent-KeptTable, wake_closed-KeptTable,
}
use ferrugem.Scheduler.Exit.{exit_current, reaped, waitpid_pass, reap, wait_status, is_reapable}

-- The task that ends, as `Task::exit` leaves it.
abbrev pub ended : ℕ → Task → Pool → Task
ended code t pool = (exit code t pool).0

-- The table once the task at the current slot has ended and the waiters for it are woken.
abbrev woken : ℕ → Scheduler → Task → Table
woken code s t =
    wake_child_waiters t.pid t.ppid (set s.tasks s.current (some (ended code t s.pool)))

exit-KeptTable :
    (code : ℕ) (s : Scheduler) (t : Task)
    → task_at s.tasks s.current ≡ some t
    → KeptTable (woken code s t) (exit_current code s).tasks
unfolding exit_current wake_closed_pipe_readers
exit-KeptTable code s t e j =
    rw (e, exit_current)
      (Kept-trans (task_at (woken code s t) j)
        (task_at (signal_parent t.ppid sigchld (woken code s t)) j) _
        (signal_parent-KeptTable t.ppid sigchld (woken code s t) j)
        (wake_closed-KeptTable 0 (exit code t s.pool).1 s.pipe_waiters
          (signal_parent t.ppid sigchld (woken code s t)) j))

-- Slot `j` of that table.
task_at-woken :
    (code : ℕ) (s : Scheduler) (t : Task) (j : ℕ)
    → task_at s.tasks s.current ≡ some t
    → task_at (woken code s t) j
      ≡ map_task
          (wake_child t.pid t.ppid)
          (if s.current == j then some (ended code t s.pool) else task_at s.tasks j)
unfolding wake_child_waiters
task_at-woken code s t j e = rw (
  task_at-map (wake_child t.pid t.ppid) (set s.tasks s.current (some (ended code t s.pool))) j,
  task_at-set s.tasks s.current j t _ e,
)

ended_zombie :
    (code : ℕ) (t : Task) (pool : Pool)
    → wake_child t.pid t.ppid (ended code t pool) ≡ ended code t pool
unfolding wake_child exit
ended_zombie code t pool = refl

Kept-some : (x : Task) (o : Option Task) → Kept (some x) o → (t : Task) × (o ≡ some t) × Same x t
Kept-some x none k = absurd k
Kept-some x (some t) k = (t, refl, k)

eq_of_ready : (t : Task) → is_ready t.state ≡ true → t.state ≡ ready
eq_of_ready t h = ground arith

-- A waiter for the child, or for any child if it is the parent.
abbrev pub WaitsFor : Task → Task → Type 0
WaitsFor parent child =
    (parent.waiting_for_pid ≡ child.pid)
    ⊎ ((parent.waiting_for_pid ≡ u64_max) × (parent.pid ≡ child.ppid))

wake_child-waiter :
    (child parent : Task)
    → parent.state ≡ blocked
    → WaitsFor parent child
    → wake_child child.pid child.ppid parent ≡ record parent { waiting_for_pid = 0; state = ready }
unfolding wake_child
wake_child-waiter child parent b w = ground arith

-- When a task ends, a task in another slot that is blocked waiting for it, or for any child as its
-- parent, is ready again and waits for nobody: no wake-up is lost.
pub exit_current_wakes :
    (code : ℕ) (s : Scheduler) (child parent : Task) (p : ℕ)
    → task_at s.tasks s.current ≡ some child
    → s.current ≢ p
    → task_at s.tasks p ≡ some parent
    → parent.state ≡ blocked
    → WaitsFor parent child
    → (t : Task) × (task_at (exit_current code s).tasks p ≡ some t)
      × (t.state ≡ ready)
      × (t.waiting_for_pid ≡ 0)
      × (t.pid ≡ parent.pid)
exit_current_wakes code s child parent p ec ne ep b w =
    let now : task_at (woken code s child) p
        ≡ some (record parent { waiting_for_pid = 0; state = ready }) =
      ground (arith, task_at-woken code s child p ec, wake_child-waiter child parent b w) in
    let (t, e, same) =
      Kept-some (record parent { waiting_for_pid = 0; state = ready }) _
        (rw now at (exit-KeptTable code s child ec p)) in
    (t, e, eq_of_ready t (same.alive refl), same.waiting, same.pid)

-- The slot of the task that ended holds a zombie with its exit code.
exit_current-zombie :
    (code : ℕ) (s : Scheduler) (child : Task)
    → task_at s.tasks s.current ≡ some child
    → (t : Task) × (task_at (exit_current code s).tasks s.current ≡ some t)
      × (is_zombie t.state ≡ true)
      × (t.exit_code ≡ code)
      × (t.pid ≡ child.pid)
      × (t.ppid ≡ child.ppid)
unfolding exit
exit_current-zombie code s child ec =
    let now : task_at (woken code s child) s.current ≡ some (ended code child s.pool) =
      ground (arith, task_at-woken code s child s.current ec, ended_zombie code child s.pool) in
    let (t, e, same) =
      Kept-some (ended code child s.pool) _
        (rw now at (exit-KeptTable code s child ec s.current)) in
    (t, e, same.dead, same.code, same.pid, same.ppid)

reapable-Kept :
    (cur_pid target : ℕ) (o o' : Option Task)
    → Kept o o'
    → is_reapable cur_pid target o' ≡ is_reapable cur_pid target o
reapable-Kept cur_pid target none none k = refl
reapable-Kept cur_pid target none (some t') k = absurd k
reapable-Kept cur_pid target (some t) none k = absurd k
reapable-Kept cur_pid target (some t) (some t') k = rw (k.dead, k.ppid, k.pid)

reapable-wake :
    (cur_pid target pid ppid : ℕ) (o : Option Task)
    → is_reapable cur_pid target (map_task (wake_child pid ppid) o) ≡ is_reapable cur_pid target o
unfolding wake_child
reapable-wake cur_pid target pid ppid none = refl
reapable-wake cur_pid target pid ppid (some t) = ground arith

-- In no other slot does a zombie child appear.
exit_current-others :
    (code : ℕ) (s : Scheduler) (child : Task) (cur_pid target : ℕ) (j : ℕ)
    → task_at s.tasks s.current ≡ some child
    → s.current ≢ j
    → is_reapable cur_pid target (task_at (exit_current code s).tasks j)
      ≡ is_reapable cur_pid target (task_at s.tasks j)
exit_current-others code s child cur_pid target j ec ne =
    let at_j : task_at (woken code s child) j
        ≡ map_task (wake_child child.pid child.ppid) (task_at s.tasks j) =
      ground (arith, task_at-woken code s child j ec) in
    reapable-Kept cur_pid target _ _ (exit-KeptTable code s child ec j)
    ∙ rw at_j (reapable-wake cur_pid target child.pid child.ppid (task_at s.tasks j))

-- A pass of `waitpid` that finds one slot to reap reaps it.
waitpid_pass-only :
    (cur_pid target : ℕ) (no_hang : Bool) (s : Scheduler) (c : ℕ) (t : Task)
    → 0 < c
    → c < max_tasks
    → task_at s.tasks c ≡ some t
    → is_reapable cur_pid target (some t) ≡ true
    → ((j : ℕ) → c ≢ j → is_reapable cur_pid target (task_at s.tasks j) ≡ false)
    → waitpid_pass cur_pid target no_hang s
      ≡ (reaped t.pid (wait_status t.exit_code), record s { tasks = set s.tasks c none })
unfolding waitpid_pass reap
waitpid_pass-only cur_pid target no_hang s c t lo hi e hit others =
    elim (Option-cases (find_in 1 63 (λ slot. is_reapable cur_pid target (task_at s.tasks slot)))) [
      | inl missing ↦ absurd (cc (find_in-none 1 63 _ missing c lo hi, e, hit))
      | inr (k, found) ↦ elim (ℕ_discrete c k) [
        | yes same ↦ let found_c = found ∙ ap some (sym same) in rw (found_c, waitpid_pass, e, reap)
        | no ne ↦ absurd (
            cc (
              others k ne,
              (find_in-some 1 63 (λ slot. is_reapable cur_pid target (task_at s.tasks slot)) k
                  found).passes,
            ))
      ]
    ]

wait_status-low : (code : ℕ) → wait_status code ≡ code % 256 * 256
wait_status-low code =
    let e : code / 256 * 256 + code % 256 ≡ code = omega arith in
    let f : bit_and code 255 ≡ code % 256 =
      rw e at (and-low 8 (code / 256) (code % 256) (omega arith)) in
    ap (λ (t : ℕ). t * 256) f

-- When a task ends in a slot from 1 to 63, and no other zombie has its pid and parent, its parent's
-- next pass of `waitpid` for it does not block: it returns the child's pid, with the low byte of the
-- exit code in bits 8 to 15 of the status and no other bit, and empties the slot.
pub waitpid-exit_current :
    (code : ℕ) (s : Scheduler) (child : Task) (no_hang : Bool)
    → task_at s.tasks s.current ≡ some child
    → 0 < s.current
    → s.current < max_tasks
    → ((j : ℕ) → s.current ≢ j → is_reapable child.ppid child.pid (task_at s.tasks j) ≡ false)
    → let s' = exit_current code s in
      waitpid_pass child.ppid child.pid no_hang s'
      ≡ (reaped child.pid (code % 256 * 256), record s' { tasks = set s'.tasks s.current none })
waitpid-exit_current code s child no_hang ec lo hi alone =
    let (t, e, dead, same_code, same_pid, same_ppid) = exit_current-zombie code s child ec in
    let s' = exit_current code s in
    let zombie_child : is_reapable child.ppid child.pid (some t) ≡ true = ground arith in
    waitpid_pass-only child.ppid child.pid no_hang s' s.current t lo hi e zombie_child
      (λ j ne. exit_current-others code s child child.ppid child.pid j ec ne ∙ alone j ne)
    ∙ ap₂ (λ (pid v : ℕ). (reaped pid v, record s' { tasks = set s'.tasks s.current none }))
        same_pid (ap wait_status same_code ∙ wait_status-low code)
