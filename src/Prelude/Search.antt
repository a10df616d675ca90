-- ===== src/Prelude/Search.antt =====
-- The loop `for i in from .. from + n { if p(i) { return Some(i) } } None`.
use Prim.Native.Nat.{ℕ, zero, suc, ◌+◌, ◌≤◌, ◌<◌}
use mathlib.Core.Path.{◌≡◌}
use mathlib.Core.Logic.{inl, inr}
use mathlib.Core.Bool.{Bool, true, false}
use mathlib.Core.Option.{Option, none, some}
use native.Mathlib.Omega.{arith}
use native.Mathlib.Decide.{ℕ_discrete}
use ferrugem.Prelude.Tests.{Bool-cases, if◌then◌else◌}

unfoldable pub find_in : ℕ → ℕ → (ℕ → Bool) → Option ℕ
find_in from zero p = none
find_in from (suc n) p = let rest = find_in (from + 1) n p in if p from then some from else rest

-- `k` is the first of the indices from `from` on that passes the test.
pub record First (from n : ℕ) (p : ℕ → Bool) (k : ℕ) : Type 0 where
  pub above : from ≤ k
  pub below : k < from + n
  pub passes : p k ≡ true
  pub earliest : (j : ℕ) → from ≤ j → j < k → p j ≡ false

pub find_in-none :
    (from n : ℕ) (p : ℕ → Bool)
    → find_in from n p ≡ none
    → (j : ℕ) → from ≤ j
    → j < from + n
    → p j ≡ false
unfolding find_in
find_in-none from zero p e j lo hi = absurd (omega arith)
find_in-none from (suc n) p e j lo hi =
    let (here, later) : (p from ≡ false) × (find_in (from + 1) n p ≡ none) =
      (ground arith, ground arith) in
    elim (ℕ_discrete from j) [
      | yes same ↦ rw (← same) here
      | no ne ↦ find_in-none (from + 1) n p later j (omega arith) (omega arith)
    ]

pub find_in-some :
    (from n : ℕ) (p : ℕ → Bool) (k : ℕ) → find_in from n p ≡ some k → First from n p k
unfolding find_in
find_in-some from zero p k e = cc
find_in-some from (suc n) p k e = elim (Bool-cases (p from)) [
  | inl here ↦
      let same : from ≡ k = ground arith in
      record {
        above = omega arith;
        below = omega arith;
        passes = rw (← same) here;
        earliest = λ j lo hi. absurd (omega arith);
      }
  | inr not_here ↦
      let f : First (from + 1) n p k = find_in-some (from + 1) n p k (ground arith) in
      record {
        above = omega (arith, f.above);
        below = omega (arith, f.below);
        passes = f.passes;
        earliest = λ j lo hi. elim (ℕ_discrete from j) [
          | yes same ↦ rw (← same) not_here
          | no ne ↦ f.earliest j (omega arith) hi
        ];
      }
]
