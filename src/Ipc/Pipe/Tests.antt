-- ===== src/Ipc/Pipe/Tests.antt =====
-- Runs of pipes at concrete inputs.
use ferrugem.Prelude.{◌≡◌, refl, List, [], ◌∷◌, ◌++◌, min, take, drop}
use ferrugem.Ipc.Pipe.{new, write, read}
use ferrugem.Ipc.Pipe.Bulk.{IsValid, contents, room, held, new-IsValid, write_lem, read_lem}
use ferrugem.Ipc.Pipe.Stream.{Op, send, receive, run, run_stream}

-- Two writes and a read of a new pipe.
abbrev script : List Op
script =
    send (1 ∷ 2 ∷ 3 ∷ []) ∷ receive (0 ∷ 0 ∷ []) ∷ send (4 ∷ []) ∷ receive (7 ∷ 7 ∷ 7 ∷ []) ∷ []

run-script : ((run new script).1 ≡ 1 ∷ 2 ∷ 3 ∷ 4 ∷ []) × ((run new script).2 ≡ 1 ∷ 2 ∷ 3 ∷ 4 ∷ [])
unfolding run new write read
run-script = (refl, refl)

write_lem_example :
    let (p', n) = write new (5 ∷ 6 ∷ []) in
    (n ≡ min 2 (room new))
    × (contents p' ≡ contents new ++ take (room new) (5 ∷ 6 ∷ []))
    × IsValid p'
write_lem_example = write_lem {p = new} (5 ∷ 6 ∷ []) new-IsValid

read_lem_example :
    let (p', slots', n) = read new (7 ∷ []) in
    (n ≡ min 1 (held new))
    × (slots' ≡ take 1 (contents new) ++ drop (held new) (7 ∷ []))
    × (contents p' ≡ drop 1 (contents new))
    × IsValid p'
read_lem_example = read_lem {p = new} (7 ∷ []) new-IsValid

run_stream_example :
    let (q, sent, received) = run new script in
    (contents new ++ sent ≡ received ++ contents q) × IsValid q
run_stream_example = run_stream script {p = new} new-IsValid
