-- ===== src/Process/Signal/Tests.antt =====
-- Signals at concrete inputs.
use ferrugem.Prelude.{◌^◌, ◌<◌, ◌≡◌, ◌&&◌, ◌||◌, not, ◌==◌, arith}
use ferrugem.Process.Signal.{raise_signal, take_signal}
use ferrugem.Process.Signal.Pending.{is_signal, is_pending, raise_signal_lem, take_signal_lem}

raise_signal_lem_example :
    let (after, done) = raise_signal 9 0 in
    (done ≡ is_signal 9)
    × (is_pending 9 after ≡ (done && 9 == 9 || is_pending 9 0))
    × (after < 2 ^ 32)
raise_signal_lem_example = raise_signal_lem 9 0 9 (omega arith)

take_signal_lem_example :
    let (after, taken) = take_signal 9 256 in
    (taken ≡ is_pending 9 256)
    × (is_pending 17 after ≡ (not (9 == 17) && is_pending 17 256))
    × (after < 2 ^ 32)
take_signal_lem_example = take_signal_lem 9 256 17 (omega arith)
