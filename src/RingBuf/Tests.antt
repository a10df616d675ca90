-- ===== src/RingBuf/Tests.antt =====
-- Runs of the byte ring at concrete inputs.
use ferrugem.Prelude.{◌≡◌, refl, true, false, none, some, List, [], ◌∷◌, arith}
use ferrugem.Circular.{window}
use ferrugem.RingBuf.Queue
use ferrugem.RingBuf.{RingBuf, Op, put, get, stored, byte, run, push, pop}
use ferrugem.RingBuf.Fifo.{IsValid, run_refines}

-- 8, then 9, round the end of a ring of four cells.
abbrev wrapped : RingBuf
wrapped = record { buf = 9 ∷ 0 ∷ 0 ∷ 8 ∷ []; head = 1; tail = 3 }

abbrev script : List Op
script = put 1 ∷ put 2 ∷ get ∷ get ∷ get ∷ get ∷ []

wrapped-IsValid : IsValid 4 wrapped
wrapped-IsValid = omega arith

run-wrapped :
    run 4 wrapped script
    ≡ stored true ∷ stored false ∷ byte (some 8) ∷ byte (some 9) ∷ byte (some 1) ∷ byte none ∷ []
unfolding run push pop
run-wrapped = refl

run_refines_example : run 4 wrapped script ≡ Queue.run 3 (8 ∷ 9 ∷ []) script
unfolding window
run_refines_example = run_refines script wrapped-IsValid
