-- ===== src/Ipc/Pipe/Stream.antt =====
-- A pipe carries a stream: what any history of sends and receives does to the bytes.
use mathlib.Core.List.{append-nil, append_assoc}
use ferrugem.Prelude.{
  ℕ, ◌≡◌, ◌∙◌, ap, sym, List, [], ◌∷◌, ◌++◌, arith, length, take, drop, length-take, take-min,
  take-append_self, take-append-drop,
}
use ferrugem.Circular.{length-window}
use ferrugem.Ipc.Pipe.{Pipe, pipe_buf, write, read}
use ferrugem.Ipc.Pipe.Bulk.{IsValid, contents, held, room, write_lem, read_lem}

-- What processes do to a pipe: send bytes, or receive into a buffer.
pub data Op : Type 0 where
  send : List ℕ → Op
  receive : List ℕ → Op

-- The pipe after some calls, the bytes that the calls report as sent, and those that they report
-- as received, in order.
unfoldable pub run : Pipe → List Op → Pipe × List ℕ × List ℕ
run p [] = (p, [], [])
run p (send bytes ∷ ops) =
    let (p', n) = write p bytes in
    let (q, sent, received) = run p' ops in (q, take n bytes ++ sent, received)
run p (receive slots ∷ ops) =
    let (p', slots', n) = read p slots in
    let (q, sent, received) = run p' ops in (q, sent, take n slots' ++ received)

length-contents : (p : Pipe) → length (contents p) ≡ held p
length-contents p = length-window pipe_buf p.buf p.tail (held p)

-- The bytes that a call of `write` reports.
sent_bytes :
    {p : Pipe} (bytes : List ℕ)
    → IsValid p
    → let (p', n) = write p bytes in contents p' ≡ contents p ++ take n bytes
sent_bytes {p} bytes v =
    let (count, now, _) = write_lem bytes v in
    rw (now, count) (ap (◌++◌ (contents p)) (sym (take-min (room p) bytes)))

-- The bytes that a call of `read` reports.
received_bytes :
    {p : Pipe} (slots : List ℕ)
    → IsValid p
    → let (p', slots', n) = read p slots in contents p ≡ take n slots' ++ contents p'
received_bytes {p} slots v =
    let (count, filled, left, _) = read_lem slots v in
    let k = length slots in
    let e : (read p slots).2 ≡ length (take k (contents p)) =
      omega (arith, count, length-take k (contents p), length-contents p) in
    rw (e, filled, left, take-append_self (take k (contents p)) (drop (held p) slots))
      (sym (take-append-drop k (contents p)))

-- Whatever processes send and receive through a valid pipe, in any order, what it held at first
-- and what was then sent is, byte for byte and in order, what was received and what it holds in the
-- end: no byte is lost, repeated or overtaken. The pipe stays valid.
pub run_stream :
    (ops : List Op) {p : Pipe}
    → IsValid p
    → let (q, sent, received) = run p ops in
      (contents p ++ sent ≡ received ++ contents q) × IsValid q
unfolding run
run_stream [] v = (append-nil _, v)
run_stream (send bytes ∷ ops) {p} v =
    let (p', n) = write p bytes in
    let (q, sent, received) = run p' ops in
    let (whole, valid) = run_stream ops (write_lem bytes v).2 in
    (
      sym (append_assoc (contents p) (take n bytes) sent)
          ∙ ap (λ held. held ++ sent) (sym (sent_bytes bytes v))
          ∙ whole,
      valid,
    )
run_stream (receive slots ∷ ops) {p} v =
    let (p', slots', n) = read p slots in
    let (q, sent, received) = run p' ops in
    let (whole, valid) = run_stream ops (read_lem slots v).3 in
    (
      ap (λ held. held ++ sent) (received_bytes slots v)
          ∙ append_assoc (take n slots') (contents p') sent
          ∙ ap (◌++◌ (take n slots')) whole
          ∙ sym (append_assoc (take n slots') received (contents q)),
      valid,
    )
