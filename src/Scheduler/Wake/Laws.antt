-- ===== src/Scheduler/Wake/Laws.antt =====
-- What waking keeps of every task: signals and wake-ups make no task a zombie, stop no ready task,
-- and change nobody's identity.
use ferrugem.Prelude.{
  ℕ, ◌+◌, ◌≡◌, refl, ◌∙◌, true, not, Option, none, some, List, [], ◌∷◌, ◌==◌, if◌then◌else◌, arith,
  Option-cases, Bool-cases, inl, inr, find_in,
}
use ferrugem.Ipc.Pool.{Pool, pipe_write_open}
use ferrugem.Process.Task.{Task, is_ready, is_zombie, raise_signal}
use ferrugem.Scheduler.{Table, max_tasks, task_at, map_task, update_task}
use ferrugem.Scheduler.Table.{task_at-update}
use ferrugem.Scheduler.Wake.{unblock, signal_parent, wake_waiter, wake_closed_from, has_pid}

pub record Same (t t' : Task) : Type 0 where
  pub pid : t'.pid ≡ t.pid
  pub ppid : t'.ppid ≡ t.ppid
  pub code : t'.exit_code ≡ t.exit_code
  pub waiting : t'.waiting_for_pid ≡ t.waiting_for_pid
  pub dead : is_zombie t'.state ≡ is_zombie t.state
  pub alive : is_ready t.state ≡ true → is_ready t'.state ≡ true

abbrev pub Kept : Option Task → Option Task → Type 0
Kept none none = Unit
Kept none (some t') = ⊥
Kept (some t) none = ⊥
Kept (some t) (some t') = Same t t'

-- Slot by slot.
abbrev pub KeptTable : Table → Table → Type 0
KeptTable tasks tasks' = (j : ℕ) → Kept (task_at tasks j) (task_at tasks' j)

Same-refl : (t : Task) → Same t t
Same-refl t = record {
  pid = refl;
  ppid = refl;
  code = refl;
  waiting = refl;
  dead = refl;
  alive = λ h. h;
}

pub Kept-refl : (o : Option Task) → Kept o o
Kept-refl none = tt
Kept-refl (some t) = Same-refl t

pub Kept-trans : (o p q : Option Task) → Kept o p → Kept p q → Kept o q
Kept-trans none none none a b = tt
Kept-trans none none (some _) a b = b
Kept-trans none (some _) q a b = absurd a
Kept-trans (some _) none q a b = absurd a
Kept-trans (some t) (some u) none a b = b
Kept-trans (some t) (some u) (some v) a b = record {
  pid = b.pid ∙ a.pid;
  ppid = b.ppid ∙ a.ppid;
  code = b.code ∙ a.code;
  waiting = b.waiting ∙ a.waiting;
  dead = b.dead ∙ a.dead;
  alive = λ h. b.alive (a.alive h);
}

Kept-map :
    (f : Task → Task) → ((t : Task) → Same t (f t)) → (o : Option Task) → Kept o (map_task f o)
Kept-map f same none = tt
Kept-map f same (some t) = same t

update-KeptTable :
    (f : Task → Task)
    → ((t : Task) → Same t (f t))
    → (slot : ℕ) (tasks : Table) → KeptTable tasks (update_task f slot tasks)
update-KeptTable f same slot tasks j =
    rw (task_at-update f slot tasks j) (elim (Bool-cases (slot == j)) [
      | inl y ↦ rw y (Kept-map f same (task_at tasks j))
      | inr n ↦ rw n (Kept-refl (task_at tasks j))
    ])

unblock-Same : (t : Task) → Same t (unblock t)
unfolding unblock
unblock-Same t = ground arith

raise_signal-Same : (sig : ℕ) (t : Task) → Same t (raise_signal sig t).0
unfolding raise_signal
raise_signal-Same sig t = record {
  pid = refl;
  ppid = refl;
  code = refl;
  waiting = refl;
  dead = refl;
  alive = λ h. h;
}

pub wake_waiter-KeptTable : (w : Option ℕ) (tasks : Table) → KeptTable tasks (wake_waiter w tasks)
unfolding wake_waiter
wake_waiter-KeptTable none tasks j = Kept-refl (task_at tasks j)
wake_waiter-KeptTable (some slot) tasks j = update-KeptTable unblock unblock-Same slot tasks j

pub signal_parent-KeptTable :
    (parent_pid sig : ℕ) (tasks : Table) → KeptTable tasks (signal_parent parent_pid sig tasks)
unfolding signal_parent
signal_parent-KeptTable parent_pid sig tasks j =
    elim (Option-cases (find_in 0 max_tasks (λ slot. has_pid parent_pid (task_at tasks slot)))) [
      | inl e ↦ rw (e, signal_parent) (Kept-refl (task_at tasks j))
      | inr (slot, e) ↦
          rw (e, signal_parent)
            (update-KeptTable (λ t. (raise_signal sig t).0) (raise_signal-Same sig) slot tasks j)
    ]

pub wake_closed-KeptTable :
    (i : ℕ) (pool : Pool) (waiters : List (Option ℕ)) (tasks : Table)
    → KeptTable tasks (wake_closed_from i pool waiters tasks).1
unfolding wake_closed_from
wake_closed-KeptTable i pool [] tasks j = Kept-refl (task_at tasks j)
wake_closed-KeptTable i pool (w ∷ rest) tasks j =
    Kept-trans (task_at tasks j) (task_at once j) _ first
      (wake_closed-KeptTable (i + 1) pool rest once j)
  where
    once : Table
    once = if not (pipe_write_open i pool) then wake_waiter w tasks else tasks

    first : Kept (task_at tasks j) (task_at once j)
    first = elim (Bool-cases (pipe_write_open i pool)) [
      | inl open_ ↦ rw open_ (Kept-refl (task_at tasks j))
      | inr shut ↦ rw shut (wake_waiter-KeptTable w tasks j)
    ]
