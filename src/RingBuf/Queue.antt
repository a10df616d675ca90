-- ===== src/RingBuf/Queue.antt =====
-- A queue of at most `cap` bytes: a full one refuses a byte, an empty one has none to give.
use ferrugem.Prelude.{
  ℕ, Bool, true, false, Option, none, some, List, [], ◌∷◌, ◌++◌, if◌then◌else◌, ltb, length,
}
use ferrugem.RingBuf.{Op, put, get, Reply, stored, byte}

unfoldable pub push : ℕ → List ℕ → ℕ → Bool × List ℕ
push cap q b = if ltb (length q) cap then (true, q ++ b ∷ []) else (false, q)

unfoldable pub pop : List ℕ → Option ℕ × List ℕ
pop [] = (none, [])
pop (b ∷ q) = (some b, q)

unfoldable pub run : ℕ → List ℕ → List Op → List Reply
run cap q [] = []
run cap q (put b ∷ ops) = let (done, q') = push cap q b in stored done ∷ run cap q' ops
run cap q (get ∷ ops) = let (b, q') = pop q in byte b ∷ run cap q' ops
