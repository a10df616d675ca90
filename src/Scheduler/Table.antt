-- ===== src/Scheduler/Table.antt =====
-- Reading the task table after an update.
use ferrugem.Prelude.{
  ℕ, zero, suc, ◌≡◌, refl, map, Option, none, some, [], ◌∷◌, ◌==◌, if◌then◌else◌, set, length,
  arith, get_or-set_self, get_or-set_ne, ◌<◌, ℕ_discrete, Option-cases, inl, inr,
}
use ferrugem.Process.Task.{Task}
use ferrugem.Scheduler.{Table, task_at, map_task, update_task}

-- An index at which there is a task is in the table.
pub task_at-lt : (tasks : Table) (i : ℕ) (t : Task) → task_at tasks i ≡ some t → i < length tasks
task_at-lt [] i t e = cc
task_at-lt (x ∷ xs) zero t e = omega arith
task_at-lt (x ∷ xs) (suc i) t e = omega (arith, task_at-lt xs i t e)

pub task_at-set :
    (tasks : Table) (i j : ℕ) (t : Task) (o : Option Task)
    → task_at tasks i ≡ some t
    → task_at (set tasks i o) j ≡ (if i == j then o else task_at tasks j)
task_at-set tasks i j t o e = elim (ℕ_discrete i j) [
  | yes same ↦ ground (arith, get_or-set_self tasks i o none (task_at-lt tasks i t e))
  | no ne ↦ ground (arith, get_or-set_ne tasks i j o none ne)
]

pub task_at-update :
    (f : Task → Task) (slot : ℕ) (tasks : Table) (j : ℕ)
    → task_at (update_task f slot tasks) j
      ≡ (if slot == j then map_task f (task_at tasks j) else task_at tasks j)
unfolding update_task
task_at-update f slot tasks j = elim (Option-cases (task_at tasks slot)) [
  | inl e ↦
      rw (e, update_task)
        (elim (ℕ_discrete slot j) [
          | yes same ↦ let e' : task_at tasks j ≡ none = rw (← same) e in rw e' (ground arith)
          | no ne ↦ ground arith
        ])
  | inr (t, e) ↦
      rw (e, update_task)
        (elim (ℕ_discrete slot j) [
          | yes same ↦
              let e' : task_at tasks j ≡ some t = rw (← same) e in
              rw e' (ground (arith, task_at-set tasks slot j t (some (f t)) e))
          | no ne ↦ ground (arith, task_at-set tasks slot j t (some (f t)) e)
        ])
]

pub task_at-map :
    (f : Task → Task) (tasks : Table) (j : ℕ)
    → task_at (map (map_task f) tasks) j ≡ map_task f (task_at tasks j)
task_at-map f [] j = refl
task_at-map f (x ∷ xs) zero = refl
task_at-map f (x ∷ xs) (suc j) = task_at-map f xs j
