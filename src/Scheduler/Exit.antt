-- ===== src/Scheduler/Exit.antt =====
-- The end of a task in kernel/src/scheduler/mod.rs: `exit_current`, the delivery of lethal signals,
-- and `waitpid`.
pub mod Laws
use Prim.Native.Nat.{bit_and}
use ferrugem.Prelude.{
  ℕ, zero, suc, ◌+◌, ◌-◌, ◌*◌, ◌^◌, Bool, true, false, ◌&&◌, ◌||◌, not, Option, none, some, List,
  [], ◌∷◌, ◌==◌, if◌then◌else◌, set, find_in,
}
use ferrugem.Process.Signal.{sigkill, sigabrt, sigquit, sigterm, sigint, sigchld}
use ferrugem.Process.Task.{Task, ready, blocked, is_zombie, exit, take_signal}
use ferrugem.Scheduler.{Scheduler, Table, max_tasks, task_at, update_task}
use ferrugem.Scheduler.Wake.{u64_max, wake_child_waiters, signal_parent, wake_closed_pipe_readers}

-- `exit_current` up to its call of `schedule`.
unfoldable pub exit_current : (code : ℕ) → Scheduler → Scheduler
exit_current code s = elim (task_at s.tasks s.current) [
  | none ↦ s
  | some t ↦
      let (t', pool') = exit code t s.pool in
      let tasks' =
        signal_parent t.ppid sigchld
          (wake_child_waiters t.pid t.ppid (set s.tasks s.current (some t'))) in
      wake_closed_pipe_readers (record s { pool = pool'; tasks = tasks' })
]

-- The lethal signals in the order of the source; a signal after the first one found is not taken.
take_first : List ℕ → Task → Task × Bool
take_first [] t = (t, false)
take_first (sig ∷ sigs) t =
    let (t', taken) = take_signal sig t in
    let later = take_first sigs t' in if taken then (t', true) else later

unfoldable pub take_lethal : Task → Task × Bool
unfolding take_first
take_lethal = take_first (sigkill ∷ sigabrt ∷ sigquit ∷ sigterm ∷ sigint ∷ [])

-- One round of the loop of `deliver_all_signals`, for the task at `slot`.
unfoldable pub deliver_to : (slot : ℕ) → Task → Scheduler → Scheduler
deliver_to slot t s =
    let (t1, lethal) = take_lethal t in
    let (t2, pool') = exit 1 t1 s.pool in
    let (t3, child_ended) = take_signal sigchld t1 in
    let woken : Task =
      if child_ended && not (t3.waiting_for_pid == 0)
      then record t3 { state = ready; waiting_for_pid = 0 }
      else t3 in
    if is_zombie t.state || t.pending_signals == 0
    then s
    else if lethal
    then record s {
      pool = pool';
      tasks = wake_child_waiters t1.pid t1.ppid (set s.tasks slot (some t2));
    }
    else record s { tasks = set s.tasks slot (some woken) }

deliver_from : (slot rounds : ℕ) → Scheduler → Scheduler
deliver_from slot zero s = s
deliver_from slot (suc rounds) s =
    deliver_from (slot + 1) rounds
      (elim (task_at s.tasks slot) [ none ↦ s | some t ↦ deliver_to slot t s ])

unfoldable pub deliver_all_signals : Scheduler → Scheduler
unfolding deliver_from
deliver_all_signals = deliver_from 1 (max_tasks - 1)

-- What one pass of the loop of `waitpid` comes to. `status` is what is written to `*status_out`.
pub data WaitResult : Type 0 where
  reaped : (pid status : ℕ) → WaitResult
  no_child would_hang blocks : WaitResult

-- The zombie that a pass looks for: a child of `cur_pid` that the target admits.
abbrev pub is_reapable : (cur_pid target_pid : ℕ) → Option Task → Bool
is_reapable cur_pid target_pid none = false
is_reapable cur_pid target_pid (some t) =
    is_zombie t.state && t.ppid == cur_pid && (target_pid == u64_max || t.pid == target_pid)

abbrev pub is_living_child : (cur_pid : ℕ) → Option Task → Bool
is_living_child cur_pid none = false
is_living_child cur_pid (some t) = t.ppid == cur_pid && not (is_zombie t.state)

-- `(code & 0xFF) << 8`.
abbrev pub wait_status : ℕ → ℕ
wait_status code = bit_and code 0xff * 2 ^ 8

unfoldable pub reap : (slot : ℕ) → Scheduler → WaitResult × Scheduler
reap slot s = elim (task_at s.tasks slot) [
  | none ↦ (no_child, s)
  | some t ↦ (reaped t.pid (wait_status t.exit_code), record s { tasks = set s.tasks slot none })
]

-- After `blocks` the source calls `schedule` and makes another pass.
unfoldable pub waitpid_pass :
    (cur_pid target_pid : ℕ) → (no_hang : Bool) → Scheduler → WaitResult × Scheduler
waitpid_pass cur_pid target_pid no_hang s =
    elim (find_in 1 (max_tasks - 1)
      (λ slot. is_reapable cur_pid target_pid (task_at s.tasks slot))) [
        | some slot ↦ reap slot s
        | none ↦
            elim (find_in 1 (max_tasks - 1)
              (λ slot. is_living_child cur_pid (task_at s.tasks slot))) [
                | none ↦ (no_child, s)
                | some _ ↦ if no_hang then (would_hang, s) else (
                  blocks,
                  record s {
                    tasks =
                        update_task
                          (λ t. record t { waiting_for_pid = target_pid; state = blocked })
                          s.current s.tasks;
                  },
                )
              ]
      ]
