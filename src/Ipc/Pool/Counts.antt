-- ===== src/Ipc/Pool/Counts.antt =====
-- Reference counting in the pool: each operation against the numbers of open ends.
use ferrugem.Prelude.{
  ℕ, suc, ◌+◌, ◌<◌, ◌≡◌, ◌≢◌, refl, ◌==◌, ltb, if◌then◌else◌, length, arith, ℕ_discrete, ◌∙◌, subst,
}
use ferrugem.Ipc.Pool.{
  Pool, PipeSlot, max_pipes, slot_at, update_slot, retain_read, retain_write, release_read,
  release_write, dup_pipe_read, dup_pipe_write, close_pipe_read, close_pipe_write,
}
use ferrugem.Ipc.Pool.Slots.{slot_at-update, length-update}

abbrev pub one : ℕ → ℕ → ℕ
one idx i = if idx == i then 1 else 0

-- A slot holds `r` and `w` as its counts, and is in use exactly when an end is open.
pub record Agrees (s : PipeSlot) (r w : ℕ) : Type 0 where
  pub readers : s.read_count ≡ r
  pub writers : s.write_count ≡ w
  pub used : s.in_use ≡ ltb 0 (r + w)

pub record Balanced (pool : Pool) (r w : ℕ → ℕ) : Type 0 where
  pub size : length pool ≡ max_pipes
  pub slots : (i : ℕ) → i < max_pipes → Agrees (slot_at pool i) (r i) (w i)

-- One operation on pipe `idx` that takes its counts from `r`, `w` to `r'`, `w'`.
update-Balanced :
    (f : PipeSlot → PipeSlot) (idx : ℕ) (pool : Pool) (r w r' w' : ℕ → ℕ)
    → ((i : ℕ) → idx ≢ i → (r i ≡ r' i) × (w i ≡ w' i))
    → (idx < max_pipes
        → (0 < r idx + w idx)
          × ((s : PipeSlot) → Agrees s (r idx) (w idx) → Agrees (f s) (r' idx) (w' idx)))
    → Balanced pool r w
    → Balanced (update_slot f idx pool) r' w'
update-Balanced f idx pool r w r' w' same step b = record {
  size = length-update f idx pool ∙ b.size;
  slots = λ i h. elim (ℕ_discrete idx i) [
    | yes e ↦
        subst (λ j. Agrees (slot_at (update_slot f idx pool) j) (r' j) (w' j)) e (changed (rw e h))
    | no ne ↦ rw (kept i h ne, ← (same i ne).0, ← (same i ne).1) (b.slots i h)
  ];
}
  where
    changed :
        (h : idx < max_pipes) → Agrees (slot_at (update_slot f idx pool) idx) (r' idx) (w' idx)
    changed h =
        let a : Agrees (slot_at pool idx) (r idx) (w idx) = b.slots idx h in
        let e : slot_at (update_slot f idx pool) idx ≡ f (slot_at pool idx) =
          ground (arith, slot_at-update f idx pool idx b.size h, (step h).0) in
        rw e ((step h).1 (slot_at pool idx) a)

    kept : (i : ℕ) → i < max_pipes → idx ≢ i → slot_at (update_slot f idx pool) i ≡ slot_at pool i
    kept i h ne = ground (arith, slot_at-update f idx pool i b.size h)

release_read-Agrees : (s : PipeSlot) (r w : ℕ) → Agrees s (suc r) w → Agrees (release_read s) r w
unfolding release_read
release_read-Agrees s r w a = ground arith

release_write-Agrees : (s : PipeSlot) (r w : ℕ) → Agrees s r (suc w) → Agrees (release_write s) r w
unfolding release_write
release_write-Agrees s r w a = ground arith

retain_read-Agrees :
    (s : PipeSlot) (r w : ℕ) → r < 255 → 0 < r + w → Agrees s r w → Agrees (retain_read s) (suc r) w
unfolding retain_read
retain_read-Agrees s r w h u a = ground arith

retain_write-Agrees :
    (s : PipeSlot) (r w : ℕ)
    → w < 255
    → 0 < r + w
    → Agrees s r w
    → Agrees (retain_write s) r (suc w)
unfolding retain_write
retain_write-Agrees s r w h u a = ground arith

one_self : (idx : ℕ) → one idx idx ≡ 1
one_self idx = ground arith

one_other : (idx i : ℕ) → idx ≢ i → one idx i ≡ 0
one_other idx i ne = ground arith

-- Closing one end takes one reference away, from that pipe alone.
pub close_pipe_read-Balanced :
    (idx : ℕ) (pool : Pool) (r w : ℕ → ℕ)
    → Balanced pool (λ i. one idx i + r i) w
    → Balanced (close_pipe_read idx pool) r w
unfolding close_pipe_read
close_pipe_read-Balanced idx pool r w =
    update-Balanced release_read idx pool (λ i. one idx i + r i) w r w
      (λ i ne. (ground arith, refl))
      (λ h. (ground arith, λ s a. release_read-Agrees s (r idx) (w idx) (ground arith)))

pub close_pipe_write-Balanced :
    (idx : ℕ) (pool : Pool) (r w : ℕ → ℕ)
    → Balanced pool r (λ i. one idx i + w i)
    → Balanced (close_pipe_write idx pool) r w
unfolding close_pipe_write
close_pipe_write-Balanced idx pool r w =
    update-Balanced release_write idx pool r (λ i. one idx i + w i) r w
      (λ i ne. (refl, ground arith))
      (λ h. (ground arith, λ s a. release_write-Agrees s (r idx) (w idx) (ground arith)))

-- Copying one end adds one reference, if the pipe has one already and its count is below 255.
pub dup_pipe_read-Balanced :
    (idx : ℕ) (pool : Pool) (r w : ℕ → ℕ)
    → (idx < max_pipes → (0 < r idx + w idx) × (r idx < 255))
    → Balanced pool r w
    → Balanced (dup_pipe_read idx pool) (λ i. one idx i + r i) w
unfolding dup_pipe_read
dup_pipe_read-Balanced idx pool r w fits =
    update-Balanced retain_read idx pool r w (λ i. one idx i + r i) w (λ i ne. (ground arith, refl))
      (λ h. (
        (fits h).0,
        λ s a. ground (arith, retain_read-Agrees s (r idx) (w idx) (fits h).1 (fits h).0 a),
      ))

pub dup_pipe_write-Balanced :
    (idx : ℕ) (pool : Pool) (r w : ℕ → ℕ)
    → (idx < max_pipes → (0 < r idx + w idx) × (w idx < 255))
    → Balanced pool r w
    → Balanced (dup_pipe_write idx pool) r (λ i. one idx i + w i)
unfolding dup_pipe_write
dup_pipe_write-Balanced idx pool r w fits =
    update-Balanced retain_write idx pool r w r (λ i. one idx i + w i)
      (λ i ne. (refl, ground arith))
      (λ h. (
        (fits h).0,
        λ s a. ground (arith, retain_write-Agrees s (r idx) (w idx) (fits h).1 (fits h).0 a),
      ))

pub Balanced-cong :
    (pool : Pool) (r w r' w' : ℕ → ℕ)
    → ((i : ℕ) → r i ≡ r' i)
    → ((i : ℕ) → w i ≡ w' i)
    → Balanced pool r w
    → Balanced pool r' w'
Balanced-cong pool r w r' w' er ew b = record {
  size = b.size;
  slots = λ i h. rw (← er i, ← ew i) (b.slots i h);
}
