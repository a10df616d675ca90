-- ===== src/Scheduler/Pick/Fair.antt =====
-- The round robin is fair.
use ferrugem.Prelude.{
  ℕ, zero, suc, ◌+◌, ◌-◌, ◌≤◌, ◌<◌, ◌≡◌, ◌≢◌, ◌⊎◌, inl, inr, Bool, true, false, find_in,
  find_in-some, find_in-none, arith, Option-cases, dec_lt, ℕ_discrete, subst, sym, ltb,
  if◌then◌else◌,
}
use ferrugem.Scheduler.{Table, task_at, max_tasks}
use ferrugem.Scheduler.Pick.{search_start, slot_of_round, runnable, pick}

-- How many slots a walk from the one after `current` passes before it comes to `slot`: up to slot 63,
-- then on from slot 1, so that `current` itself comes last.
unfoldable pub rounds_to : (current slot : ℕ) → ℕ
rounds_to current slot = if ltb current slot then slot - current - 1 else slot + 62 - current

abbrev InTable : ℕ → Type 0
InTable slot = (0 < slot) × (slot < max_tasks)

slot_of_rounds_to :
    (current slot : ℕ)
    → current < max_tasks
    → InTable slot
    → (slot_of_round (search_start current) (rounds_to current slot) ≡ slot)
      × (rounds_to current slot < max_tasks - 1)
unfolding slot_of_round search_start rounds_to
slot_of_rounds_to current slot h s = ground arith

rounds_to-slot_of_round :
    (current i : ℕ)
    → current < max_tasks
    → i < max_tasks - 1
    → (rounds_to current (slot_of_round (search_start current) i) ≡ i)
      × InTable (slot_of_round (search_start current) i)
unfolding slot_of_round search_start rounds_to
rounds_to-slot_of_round current i h lt = ground arith

-- The test of the search at round `i`.
abbrev test : Table → ℕ → ℕ → Bool
test tasks current i = runnable (task_at tasks (slot_of_round (search_start current) i))

-- What the choice can be: idle with nothing to run, or the first runnable slot of the round.
abbrev pub Picks : Table → ℕ → ℕ → Type 0
Picks tasks current next =
    ((next ≡ 0)
      × ((slot : ℕ) → 0 < slot → slot < max_tasks → runnable (task_at tasks slot) ≡ false))
    ⊎ ((0 < next)
        × (next < max_tasks)
        × (runnable (task_at tasks next) ≡ true)
        × ((slot : ℕ)
            → 0 < slot
            → slot < max_tasks
            → runnable (task_at tasks slot) ≡ true
            → rounds_to current next ≤ rounds_to current slot))

-- From any current slot, `schedule` chooses the idle task exactly when no other task is ready;
-- otherwise it chooses a ready task, and of these the one that comes first going round the slots
-- 1 to 63 from the one after the current.
pub pick-Picks :
    (tasks : Table) (current : ℕ) → current < max_tasks → Picks tasks current (pick tasks current)
unfolding pick
pick-Picks tasks current h = elim (Option-cases (find_in 0 63 (test tasks current))) [
  | inl missing ↦ inl (
    rw (missing, pick),
    λ slot lo hi.
        let (back, below) = slot_of_rounds_to current slot h (lo, hi) in
        subst (λ k. runnable (task_at tasks k) ≡ false) back
          (find_in-none 0 63 (test tasks current) missing (rounds_to current slot) (omega arith)
            (omega arith)),
  )
  | inr (i, found) ↦
      let first = find_in-some 0 63 (test tasks current) i found in
      let (back, inside) = rounds_to-slot_of_round current i h (omega (arith, first.below)) in
      rw (found, pick)
        (inr (
          inside.0,
          inside.1,
          first.passes,
          λ slot lo hi r.
              let (same, below) = slot_of_rounds_to current slot h (lo, hi) in
              elim (dec_lt (rounds_to current slot) i) [
                | yes lt ↦
                    let miss = first.earliest (rounds_to current slot) (omega arith) lt in
                    let hit : test tasks current (rounds_to current slot) ≡ true =
                      subst (λ k. runnable (task_at tasks k) ≡ true) (sym same) r in
                    absurd (cc (miss, hit))
                | no ge ↦ rw back (omega arith)
              ],
        ))
]

rounds_to-next :
    (current next slot : ℕ)
    → current < max_tasks
    → InTable next
    → InTable slot
    → next ≢ slot
    → rounds_to current next ≤ rounds_to current slot
    → rounds_to next slot < rounds_to current slot
unfolding rounds_to search_start
rounds_to-next current next slot h n s ne le = ground arith

-- One call: a ready task is chosen, or comes closer to its turn.
pick-progress :
    (tasks : Table) (current slot : ℕ)
    → current < max_tasks
    → InTable slot
    → runnable (task_at tasks slot) ≡ true
    → (pick tasks current ≡ slot)
      ⊎ ((pick tasks current < max_tasks)
          × (rounds_to (pick tasks current) slot < rounds_to current slot))
pick-progress tasks current slot h s r = elim (pick-Picks tasks current h) [
  | inl (_, idle) ↦ absurd (cc (idle slot s.0 s.1, r))
  | inr (lo, hi, _, nearest) ↦ elim (ℕ_discrete (pick tasks current) slot) [
    | yes same ↦ inl same
    | no ne ↦ inr (
      hi,
      rounds_to-next current (pick tasks current) slot h (lo, hi) s ne (nearest slot s.0 s.1 r),
    )
  ]
]

-- The current slot after `n` calls of `schedule`, the `k`-th of which finds the table `tables k`.
pub after_calls : (ℕ → Table) → ℕ → ℕ → ℕ
after_calls tables current zero = current
after_calls tables current (suc n) = after_calls (λ k. tables (suc k)) (pick (tables 0) current) n

turn_comes :
    (fuel : ℕ) (tables : ℕ → Table) (current slot : ℕ)
    → current < max_tasks
    → InTable slot
    → ((k : ℕ) → runnable (task_at (tables k) slot) ≡ true)
    → rounds_to current slot < fuel
    → (n : ℕ) × (n < fuel) × (after_calls tables current (suc n) ≡ slot)
unfolding after_calls
turn_comes zero tables current slot h s r lt = elim lt [ ]
turn_comes (suc fuel) tables current slot h s r lt =
    elim (pick-progress (tables 0) current slot h s (r 0)) [
      | inl now ↦ (0, omega arith, now)
      | inr (inside, closer) ↦
          let (n, few, later) =
            turn_comes fuel (λ k. tables (suc k)) (pick (tables 0) current) slot inside s
              (λ k. r (suc k)) (omega arith) in
          (suc n, omega (arith, few), later)
    ]

-- No starvation: whatever the other tasks do between the calls, and whichever slot is current, a
-- task that stays ready is current after one of the next 63 calls of `schedule`.
pub bounded_waiting :
    (tables : ℕ → Table) (current slot : ℕ)
    → current < max_tasks
    → 0 < slot
    → slot < max_tasks
    → ((k : ℕ) → runnable (task_at (tables k) slot) ≡ true)
    → (n : ℕ) × (n < 63) × (after_calls tables current (suc n) ≡ slot)
bounded_waiting tables current slot h lo hi r =
    turn_comes 63 tables current slot h (lo, hi) r (slot_of_rounds_to current slot h (lo, hi)).1
