-- ===== src/Memory/Bitmap.antt =====
-- kernel/src/memory/bitmap.rs: one bit for each 4 KiB frame, 1 for used. `BITMAP` is a function from
-- the word index to the `u64` there; indices stay below `MAX_FRAMES / 64`, since frames are below
-- `TOTAL_FRAMES`. An operation returns the statics after it.
pub mod Frames
pub mod Search
pub mod Alloc
pub mod Init
use Prim.Native.Nat.{bit_and, bit_or}
use ferrugem.Prelude.{
  ℕ, zero, suc, ◌+◌, ◌-◌, ◌*◌, ◌/◌, ◌%◌, ◌^◌, ◌&&◌, not, Option, none, some, ◌==◌, leb, ltb,
  if◌then◌else◌,
}
use ferrugem.Bits.{bit_not}

abbrev pub max_frames : ℕ
max_frames = 2 ^ 20

abbrev pub u64_max : ℕ
u64_max = 2 ^ 64 - 1

pub record Pmm : Type 0 where
  pub bitmap : ℕ → ℕ
  pub mem_base : ℕ
  pub total_frames : ℕ
  pub free_frames : ℕ

-- `BITMAP[w] = v`.
abbrev pub store : ℕ → ℕ → (ℕ → ℕ) → ℕ → ℕ
store w v bitmap i = if w == i then v else bitmap i

unfoldable pub mark_used : ℕ → Pmm → Pmm
mark_used frame p =
    let w = frame / 64 in
    let b = frame % 64 in
    if bit_and (p.bitmap w) (2 ^ b) == 0
    then record p {
      bitmap = store w (bit_or (p.bitmap w) (2 ^ b)) p.bitmap;
      free_frames = p.free_frames - 1;
    }
    else p

-- The loop `for i in 0..n { mark_used(first + i) }`.
unfoldable pub mark_all : (first n : ℕ) → Pmm → Pmm
mark_all first zero p = p
mark_all first (suc n) p = mark_all (first + 1) n (mark_used first p)

-- The search of `alloc_frames` for `n` free frames in a row, from frame `f` on; its last `run_len`
-- frames, from `run_start` on, are free. Each round takes one unit of fuel.
unfoldable pub scan : (n : ℕ) → Pmm → (fuel run_start run_len f : ℕ) → Option ℕ
scan n p zero run_start run_len f = none
scan n p (suc fuel) run_start run_len f =
    let after_word = (f / 64 + 1) * 64 in
    let start = if run_len == 0 then f else run_start in
    let skipped = scan n p fuel after_word 0 after_word in
    let longer = scan n p fuel start (run_len + 1) (f + 1) in
    let broken = scan n p fuel run_start 0 (f + 1) in
    if leb p.total_frames f
    then none
    else if p.bitmap (f / 64) == u64_max
    then skipped
    else if bit_and (p.bitmap (f / 64)) (2 ^ (f % 64)) == 0
    then (if run_len + 1 == n then some start else longer)
    else broken

-- Every round goes on by a frame or more, so one unit of fuel for each frame is enough.
unfoldable pub alloc_frames : ℕ → Pmm → Option ℕ × Pmm
alloc_frames n p = if n == 0 then (some 0, p) else elim (scan n p (p.total_frames + 1) 0 0 0) [
  | none ↦ (none, p)
  | some start ↦ (some start, mark_all start n p)
]

unfoldable pub alloc_frame : Pmm → Option ℕ × Pmm
alloc_frame = alloc_frames 1

-- The body of the loop of `free_frames`.
unfoldable pub release : ℕ → Pmm → Pmm
release f p =
    let w = f / 64 in
    let b = f % 64 in
    if ltb f p.total_frames && not (bit_and (p.bitmap w) (2 ^ b) == 0)
    then record p {
      bitmap = store w (bit_and (p.bitmap w) (bit_not 64 (2 ^ b))) p.bitmap;
      free_frames = p.free_frames + 1;
    }
    else p

-- `first + i` wraps.
unfoldable pub free_frames : (first n : ℕ) → Pmm → Pmm
free_frames first zero p = p
free_frames first (suc n) p = free_frames ((first + 1) % 2 ^ 64) n (release first p)

unfoldable pub free_frame : ℕ → Pmm → Pmm
free_frame frame = free_frames frame 1

unfoldable pub frame_to_addr : Pmm → ℕ → ℕ
frame_to_addr p frame = p.mem_base + frame * 4096

-- The difference wraps for an address below `MEM_BASE`.
unfoldable pub addr_to_frame : Pmm → ℕ → ℕ
addr_to_frame p addr =
    (if ltb addr p.mem_base then addr + 2 ^ 64 - p.mem_base else addr - p.mem_base) / 4096
