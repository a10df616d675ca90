-- ===== src/Process/Signal.antt =====
-- Signals of kernel/src/process/mod.rs: a task's pending signals are the bits of a `u32`, bit
-- `sig - 1` for signal `sig`.
pub mod Pending
mod Tests
use Prim.Native.Nat.{bit_and, bit_or}
use ferrugem.Prelude.{ℕ, ◌-◌, ◌^◌, Bool, true, false, ◌||◌, not, ◌==◌, ltb, if◌then◌else◌}
use ferrugem.Bits.{bit_not}

abbrev pub sighup : ℕ
sighup = 1

abbrev pub sigint : ℕ
sigint = 2

abbrev pub sigquit : ℕ
sigquit = 3

abbrev pub sigabrt : ℕ
sigabrt = 6

abbrev pub sigkill : ℕ
sigkill = 9

abbrev pub sigterm : ℕ
sigterm = 15

abbrev pub sigchld : ℕ
sigchld = 17

unfoldable pub sig_bit : ℕ → ℕ
sig_bit sig = if sig == 0 || ltb 31 sig then 0 else 2 ^ (sig - 1)

-- `Task::raise_signal` on the pending signals: the word afterwards, and the result.
unfoldable pub raise_signal : ℕ → ℕ → ℕ × Bool
raise_signal sig pending =
    let bit = sig_bit sig in if bit == 0 then (pending, false) else (bit_or pending bit, true)

-- `Task::take_signal` on the pending signals.
unfoldable pub take_signal : ℕ → ℕ → ℕ × Bool
take_signal sig pending =
    let bit = sig_bit sig in
    if not (bit_and pending bit == 0)
    then (bit_and pending (bit_not 32 bit), true)
    else (pending, false)
