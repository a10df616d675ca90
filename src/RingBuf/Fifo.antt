-- ===== src/RingBuf/Fifo.antt =====
-- The byte ring against a queue of at most `n - 1` bytes.
use ferrugem.Prelude.{
  ℕ, ◌≢◌, ◌-◌, ◌≤◌, ◌<◌, ◌≡◌, refl, List, [], ◌∷◌, ◌==◌, arith, length, length-set,
  length-replicate, inl, inr, Bool-cases, ==_iff,
}
use ferrugem.Circular.{
  next, distance, window, length-window, distance-push, distance-full, next-lt, window-push,
  window-pop, window-empty,
}
use ferrugem.RingBuf.Queue
use ferrugem.RingBuf.{RingBuf, new, push, pop, Op, put, get, run}

pub record IsValid (n : ℕ) (r : RingBuf) : Type 0 where
  pub fits : n ≤ length r.buf
  pub head_in : r.head < n
  pub tail_in : r.tail < n

abbrev pub contents : ℕ → RingBuf → List ℕ
contents n r = window n r.buf r.tail (distance n r.head r.tail)

pub new-IsValid : (n : ℕ) → 0 < n → IsValid n (new n)
unfolding new
new-IsValid n h = record {
  fits = omega (arith, length-replicate {A = ℕ} n 0);
  head_in = h;
  tail_in = h;
}

pub push-IsValid : {n : ℕ} {r : RingBuf} (b : ℕ) → IsValid n r → IsValid n (push n r b).1
unfolding push
push-IsValid {n} {r} b v = ground (arith, length-set r.buf r.head b, next-lt n r.head)

pub pop-IsValid : {n : ℕ} {r : RingBuf} → IsValid n r → IsValid n (pop n r).1
unfolding pop
pop-IsValid {n} {r} v = ground (arith, next-lt n r.tail)

pub push_refines :
    {n : ℕ} {r : RingBuf} (b : ℕ)
    → IsValid n r
    → let (done, r') = push n r b in (done, contents n r') ≡ Queue.push (n - 1) (contents n r) b
unfolding push Queue.push
push_refines {n} {r} b v = elim (Bool-cases (next n r.head == r.tail)) [
  | inl full ↦
      let e : next n r.head ≡ r.tail = (==_iff _ _).0 full in
      rw full (
        ground (
          arith,
          length-window n r.buf r.tail (distance n r.head r.tail),
          distance-full n r.head r.tail v.head_in v.tail_in e,
        ))
  | inr room ↦
      let ne : next n r.head ≢ r.tail = λ e. cc (room, (==_iff _ _).1 e) in
      rw (room, window-push n r.buf b r.head r.tail v.fits v.head_in v.tail_in ne)
        (ground (
          arith,
          length-window n r.buf r.tail (distance n r.head r.tail),
          distance-push n r.head r.tail v.head_in v.tail_in ne,
        ))
]

pub pop_refines :
    {n : ℕ} {r : RingBuf}
    → IsValid n r
    → let (b, r') = pop n r in (b, contents n r') ≡ Queue.pop (contents n r)
unfolding pop Queue.pop
pop_refines {n} {r} v = elim (Bool-cases (r.head == r.tail)) [
  | inl none_left ↦
      let e : r.head ≡ r.tail = (==_iff _ _).0 none_left in
      rw none_left (ground (arith, window-empty n r.buf r.head r.tail e))
  | inr some_left ↦
      let ne : r.head ≢ r.tail = λ e. cc (some_left, (==_iff _ _).1 e) in
      rw (some_left, window-pop n r.buf r.head r.tail v.head_in v.tail_in ne)
]

-- From a valid ring, any interleaving of the handler's pushes and the reader's pops gets the
-- replies of a queue of at most `n - 1` bytes: no byte is lost, made up or reordered.
pub run_refines :
    {n : ℕ} (ops : List Op) {r : RingBuf}
    → IsValid n r
    → run n r ops ≡ Queue.run (n - 1) (contents n r) ops
unfolding run Queue.run
run_refines [] v = refl
run_refines (put b ∷ ops) v = rw (run_refines ops (push-IsValid b v), ← push_refines b v)
run_refines (get ∷ ops) v = rw (run_refines ops (pop-IsValid v), ← pop_refines v)
