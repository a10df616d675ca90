-- ===== src/Process/Signal/Pending.antt =====
-- Raising and taking a signal, on the set of the signals that are pending.
use Prim.Native.Nat.{bit_and, bit_or}
use native.Mathlib.Nat.{one-le-pow, pow-le-pow_right}
use ferrugem.Prelude.{
  ℕ, ◌-◌, ◌^◌, ◌<◌, ◌≡◌, Bool, true, false, ◌&&◌, ◌||◌, not, ◌==◌, leb, if◌then◌else◌, arith, inl,
  inr, Bool-cases,
}
use ferrugem.Bits.{
  test_bit, bit_not, test_bit-and, test_bit-or, test_bit-bit_not, test_bit-pow, and-pow, and-zero,
  and-lt, or-lt,
}
use ferrugem.Process.Signal.{sig_bit, raise_signal, take_signal}

-- The signals that a task can have.
abbrev pub is_signal : ℕ → Bool
is_signal sig = leb 1 sig && leb sig 31

-- Whether `sig` is pending.
pub is_pending : ℕ → ℕ → Bool
is_pending sig pending = is_signal sig && test_bit pending (sig - 1)

sig_bit-signal : (sig : ℕ) → is_signal sig ≡ true → sig_bit sig ≡ 2 ^ (sig - 1)
unfolding sig_bit
sig_bit-signal sig h = ground arith

sig_bit-other : (sig : ℕ) → is_signal sig ≡ false → sig_bit sig ≡ 0
unfolding sig_bit
sig_bit-other sig h = ground arith

bit-ne-zero : (b : ℕ) → (2 ^ b == 0) ≡ false
bit-ne-zero b = ground (arith, one-le-pow b 2)

bit-lt : (sig : ℕ) → is_signal sig ≡ true → 2 ^ (sig - 1) < 2 ^ 32
bit-lt sig h =
    omega (arith, pow-le-pow_right {n = 2} (omega arith) {i = sig - 1} {j = 31} (ground arith))

raise-signal :
    (sig pending : ℕ)
    → is_signal sig ≡ true
    → raise_signal sig pending ≡ (bit_or pending (2 ^ (sig - 1)), true)
unfolding raise_signal
raise-signal sig pending h = rw (sig_bit-signal sig h, bit-ne-zero)

raise-other :
    (sig pending : ℕ) → is_signal sig ≡ false → raise_signal sig pending ≡ (pending, false)
unfolding raise_signal
raise-other sig pending h = rw (sig_bit-other sig h)

take-signal :
    (sig pending : ℕ)
    → is_signal sig ≡ true
    → take_signal sig pending ≡ (
        if test_bit pending (sig - 1)
        then (bit_and pending (bit_not 32 (2 ^ (sig - 1))), true)
        else (pending, false))
unfolding take_signal
take-signal sig pending h = rw (sig_bit-signal sig h, and-pow) (ground arith)

take-other : (sig pending : ℕ) → is_signal sig ≡ false → take_signal sig pending ≡ (pending, false)
unfolding take_signal
take-other sig pending h = rw (sig_bit-other sig h, and-zero)

-- On a word of 32 bits, raising a signal makes it pending and leaves every other as it was; a
-- number that is no signal is refused, and no signal changes. The word stays within its 32 bits.
pub raise_signal_lem :
    (sig pending other : ℕ)
    → pending < 2 ^ 32
    → let (after, done) = raise_signal sig pending in
      (done ≡ is_signal sig)
      × (is_pending other after ≡ (done && sig == other || is_pending other pending))
      × (after < 2 ^ 32)
unfolding is_pending
raise_signal_lem sig pending other h = elim (Bool-cases (is_signal sig)) [
  | inl y ↦ rw (raise-signal sig pending y) (
      ground (
        arith,
        test_bit-or pending (2 ^ (sig - 1)) (other - 1),
        test_bit-pow (sig - 1) (other - 1),
        or-lt 32 pending (2 ^ (sig - 1)) h (bit-lt sig y),
      ))
  | inr n ↦ rw (raise-other sig pending n) (ground arith)
]

-- On a word of 32 bits, taking a signal says whether it was pending, makes it not pending, and
-- leaves every other as it was. The word stays within its 32 bits.
pub take_signal_lem :
    (sig pending other : ℕ)
    → pending < 2 ^ 32
    → let (after, taken) = take_signal sig pending in
      (taken ≡ is_pending sig pending)
      × (is_pending other after ≡ (not (sig == other) && is_pending other pending))
      × (after < 2 ^ 32)
unfolding is_pending
take_signal_lem sig pending other h = elim (Bool-cases (is_signal sig)) [
  | inl y ↦ rw (take-signal sig pending y) (
      ground (
        arith,
        test_bit-and pending (bit_not 32 (2 ^ (sig - 1))) (other - 1),
        test_bit-bit_not 32 (2 ^ (sig - 1)) (other - 1) (bit-lt sig y),
        test_bit-pow (sig - 1) (other - 1),
        and-lt 32 pending (bit_not 32 (2 ^ (sig - 1))) h,
      ))
  | inr n ↦ rw (take-other sig pending n) (ground arith)
]
