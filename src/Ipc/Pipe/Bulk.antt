-- ===== src/Ipc/Pipe/Bulk.antt =====
-- What a bulk write and a bulk read do to the bytes that a pipe holds.
use mathlib.Core.List.{append-nil, append_assoc}
use ferrugem.Prelude.{
  ℕ, suc, ◌+◌, ◌-◌, ◌≤◌, ◌<◌, min, ◌≡◌, refl, ◌≢◌, ◌∙◌, ap, ap₂, sym, List, [], ◌∷◌, ◌++◌, ◌==◌,
  arith, length, get_or, set, take, drop, take-cons, take-nil, drop-nil, length-set,
  length-replicate, inl, inr, Bool-cases, ==_iff,
}
use ferrugem.Circular.{
  next, distance, window, distance-push, distance-full, distance-pop, next-lt, window-push,
  window-pop, window-empty,
}
use ferrugem.Ipc.Pipe.{Pipe, pipe_buf, new, is_empty, write_from, write, read_from, read}

pub record IsValid (p : Pipe) : Type 0 where
  pub fits : pipe_buf ≤ length p.buf
  pub head_in : p.head < pipe_buf
  pub tail_in : p.tail < pipe_buf

-- The bytes in the pipe, oldest first.
abbrev pub contents : Pipe → List ℕ
contents p = window pipe_buf p.buf p.tail (distance pipe_buf p.head p.tail)

-- How many bytes the pipe holds, and how many more it takes.
abbrev pub held : Pipe → ℕ
held p = distance pipe_buf p.head p.tail

abbrev pub room : Pipe → ℕ
room p = pipe_buf - 1 - held p

pub new-IsValid : IsValid new
unfolding new
new-IsValid = record {
  fits = omega (arith, length-replicate {A = ℕ} pipe_buf 0);
  head_in = omega arith;
  tail_in = omega arith;
}

abbrev pub stored : Pipe → ℕ → Pipe
stored p b = record p { buf = set p.buf p.head b; head = next pipe_buf p.head }

abbrev taken : Pipe → Pipe
taken p = record p { tail = next pipe_buf p.tail }

stored-IsValid : {p : Pipe} (b : ℕ) → IsValid p → IsValid (stored p b)
stored-IsValid {p} b v = record {
  fits = omega (arith, length-set p.buf p.head b, v.fits);
  head_in = next-lt pipe_buf p.head v.head_in;
  tail_in = v.tail_in;
}

taken-IsValid : {p : Pipe} → IsValid p → IsValid (taken p)
taken-IsValid {p} v = record {
  fits = v.fits;
  head_in = v.head_in;
  tail_in = next-lt pipe_buf p.tail v.tail_in;
}

-- What the write loop has done when it stops.
record Wrote (p : Pipe) (bytes : List ℕ) (i : ℕ) (out : Pipe × ℕ) : Type 0 where
  valid : IsValid out.0
  count : out.1 ≡ i + min (length bytes) (room p)
  now : contents out.0 ≡ contents p ++ take (room p) bytes

-- One byte more, while the next write index is not the read index.
contents-stored :
    {p : Pipe} (b : ℕ)
    → IsValid p
    → next pipe_buf p.head ≢ p.tail
    → (contents (stored p b) ≡ contents p ++ b ∷ [])
      × (0 < room p)
      × (room (stored p b) ≡ room p - 1)
contents-stored {p} b v ne = (
  window-push pipe_buf p.buf b p.head p.tail v.fits v.head_in v.tail_in ne,
  omega (arith, distance-push pipe_buf p.head p.tail v.head_in v.tail_in ne),
  omega (arith, distance-push pipe_buf p.head p.tail v.head_in v.tail_in ne),
)

room-full : {p : Pipe} → IsValid p → next pipe_buf p.head ≡ p.tail → room p ≡ 0
room-full {p} v e = omega (arith, distance-full pipe_buf p.head p.tail v.head_in v.tail_in e)

write_from-Wrote :
    (bytes : List ℕ) {p : Pipe} (i : ℕ) → IsValid p → Wrote p bytes i (write_from p bytes i)
unfolding write_from
write_from-Wrote [] {p} i v = record {
  valid = v;
  count = omega arith;
  now = rw (take-nil ℕ (room p), append-nil);
}
write_from-Wrote (b ∷ bs) {p} i v = elim (Bool-cases (next pipe_buf p.head == p.tail)) [
  | inl full ↦
      let none_free : room p ≡ 0 = room-full v ((==_iff _ _).0 full) in
      rw full (record { valid = v; count = omega arith; now = rw (none_free, append-nil) })
  | inr free ↦
      let (after, some_free, less) = contents-stored b v (λ e. cc (free, (==_iff _ _).1 e)) in
      rw free (
        let w : Wrote (stored p b) bs (i + 1) (write_from (stored p b) bs (i + 1)) =
          write_from-Wrote bs (i + 1) (stored-IsValid b v) in
        record {
          valid = w.valid;
          count = omega (arith, w.count, less, some_free);
          now =
              w.now
              ∙ ap₂ ◌++◌ after (ap (λ k. take k bs) less)
              ∙ append_assoc (contents p) (b ∷ []) (take (room p - 1) bs)
              ∙ ap (◌++◌ (contents p)) (sym (take-cons (room p) b bs some_free));
        })
]

-- `write` takes as many bytes as there is room for, appends exactly those, in order, to what the
-- pipe holds, and keeps the pipe valid.
pub write_lem :
    {p : Pipe} (bytes : List ℕ)
    → IsValid p
    → let (p', n) = write p bytes in
      (n ≡ min (length bytes) (room p))
      × (contents p' ≡ contents p ++ take (room p) bytes)
      × IsValid p'
unfolding write
write_lem bytes v = let w = write_from-Wrote bytes 0 v in (omega (arith, w.count), w.now, w.valid)

-- What the read loop has done when it stops.
record Got (p : Pipe) (slots : List ℕ) (i : ℕ) (out : Pipe × List ℕ × ℕ) : Type 0 where
  valid : IsValid out.0
  count : out.2 ≡ i + min (length slots) (held p)
  filled : out.1 ≡ take (length slots) (contents p) ++ drop (held p) slots
  left : contents out.0 ≡ drop (length slots) (contents p)

contents-taken :
    {p : Pipe}
    → IsValid p
    → p.head ≢ p.tail
    → (contents p ≡ get_or p.buf p.tail 0 ∷ contents (taken p)) × (held p ≡ held (taken p) + 1)
contents-taken {p} v ne = (
  window-pop pipe_buf p.buf p.head p.tail v.head_in v.tail_in ne,
  distance-pop pipe_buf p.head p.tail v.head_in v.tail_in ne,
)

held-zero : (p : Pipe) → p.head ≡ p.tail → held p ≡ 0
held-zero p e = ground arith

read_from-Got :
    (slots : List ℕ) {p : Pipe} (i : ℕ) → IsValid p → Got p slots i (read_from p slots i)
unfolding read_from
read_from-Got [] {p} i v = record {
  valid = v;
  count = omega arith;
  filled = sym (drop-nil ℕ (held p));
  left = refl;
}
read_from-Got (slot ∷ rest) {p} i v = elim (Bool-cases (p.head == p.tail)) [
  | inl none_left ↦
      let e : p.head ≡ p.tail = (==_iff _ _).0 none_left in
      let nothing : contents p ≡ [] = window-empty pipe_buf p.buf p.head p.tail e in
      let zero_held : held p ≡ 0 = held-zero p e in
      rw none_left (record {
        valid = v;
        count = omega arith;
        filled = rw (nothing, zero_held);
        left = rw nothing;
      })
  | inr some_left ↦
      let (first, fewer) = contents-taken v (λ e. cc (some_left, (==_iff _ _).1 e)) in
      let g : Got (taken p) rest (i + 1) (read_from (taken p) rest (i + 1)) =
        read_from-Got rest (i + 1) (taken-IsValid v) in
      let d : drop (held p) (slot ∷ rest) ≡ drop (held (taken p)) rest =
        let e : held p ≡ suc (held (taken p)) = omega (arith, fewer) in rw e in
      rw some_left (record {
        valid = g.valid;
        count = omega (arith, g.count, fewer);
        filled = rw (first, d) (ap (◌∷◌ (get_or p.buf p.tail 0)) g.filled);
        left = rw first g.left;
      })
]

-- `read` fills as many slots as the pipe holds bytes, with its oldest bytes in order, leaves the
-- other slots and the other bytes as they were, and keeps the pipe valid.
pub read_lem :
    {p : Pipe} (slots : List ℕ)
    → IsValid p
    → let (p', slots', n) = read p slots in
      (n ≡ min (length slots) (held p))
      × (slots' ≡ take (length slots) (contents p) ++ drop (held p) slots)
      × (contents p' ≡ drop (length slots) (contents p))
      × IsValid p'
unfolding read
read_lem slots v =
    let g = read_from-Got slots 0 v in (omega (arith, g.count), g.filled, g.left, g.valid)

pub is_empty-held : {p : Pipe} → IsValid p → is_empty p ≡ (held p == 0)
unfolding is_empty
is_empty-held {p} v = ground (arith, v.head_in, v.tail_in)

pub contents-new : contents new ≡ []
unfolding new window
contents-new = refl
