-- ===== src/Slab/Heap.antt =====
-- kernel/src/memory/heap.rs: the kernel's allocator over the slab caches, with its statistics, which
-- are `usize` and wrap.
use ferrugem.Prelude.{ℕ, ◌+◌, ◌-◌, ◌*◌, ◌%◌, ◌^◌, max, not, if◌then◌else◌, ◌==◌}
use ferrugem.Slab.{Slab}
use ferrugem.Slab

pub record Heap : Type 0 where
  pub slab : Slab
  pub used : ℕ
  pub allocs : ℕ

unfoldable pub used_bytes : Heap → ℕ
used_bytes h = h.used

unfoldable pub alloc_count : Heap → ℕ
alloc_count h = h.allocs

unfoldable pub free_bytes : Heap → ℕ
free_bytes h = h.slab.machine.memory.pmm.free_frames * 4096 % 2 ^ 64

unfoldable pub alloc : (size align : ℕ) → Heap → ℕ × Heap
alloc size' align h =
    let size = max size' align in
    let (ptr, slab) = Slab.alloc size h.slab in
    if not (ptr == 0)
    then (
      ptr,
      record { slab = slab; used = (h.used + size) % 2 ^ 64; allocs = (h.allocs + 1) % 2 ^ 64 },
    )
    else (ptr, record h { slab = slab })

-- Subtraction stops at zero, as `saturating_sub` does.
unfoldable pub dealloc : (ptr size align : ℕ) → Heap → Heap
dealloc ptr size' align h =
    let size = max size' align in
    record { slab = Slab.dealloc ptr size h.slab; used = h.used - size; allocs = h.allocs - 1 }
