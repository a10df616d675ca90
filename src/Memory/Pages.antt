-- ===== src/Memory/Pages.antt =====
-- The page allocator of kernel/src/memory/mod.rs over its statics: the bump allocator until the
-- bitmap is ready, the bitmap from then on. `init` takes the memory map, the end of the kernel image
-- and the constants of the architecture as arguments; the heap and paging are not part of the state.
pub mod Whole
use ferrugem.Prelude.{
  ℕ, ◌+◌, ◌-◌, ◌*◌, ◌/◌, ◌%◌, ◌^◌, Bool, true, false, Option, none, some, if◌then◌else◌,
}
use ferrugem.Memory.Mmap.{MemoryMap}
use ferrugem.Memory.Bump.{BumpAllocator, page_up}
use ferrugem.Memory.Bump
use ferrugem.Memory.Bitmap.{Pmm, alloc_frames, free_frames, frame_to_addr, addr_to_frame}
use ferrugem.Memory.Bitmap.Init.{init_from_mmap}

pub record Memory : Type 0 where
  pub bump : BumpAllocator
  pub bitmap_ready : Bool
  pub pmm : Pmm

-- Steps 1 to 3 of `init`.
unfoldable pub init : (min_base kernel_end fallback_base fallback_size : ℕ) → MemoryMap → Memory
init min_base kernel_end fallback_base fallback_size m =
    let pmm = init_from_mmap min_base kernel_end fallback_base fallback_size m in
    record {
      bump = Bump.new (page_up kernel_end) (pmm.mem_base + pmm.total_frames * 4096);
      bitmap_ready = true;
      pmm = pmm;
    }

unfoldable pub alloc_pages : ℕ → Memory → Option ℕ × Memory
alloc_pages pages s =
    if s.bitmap_ready
    then (let (found, pmm) = alloc_frames pages s.pmm in
        elim found [
          | none ↦ (none, record s { pmm = pmm })
          | some frame ↦ (some (frame_to_addr pmm frame), record s { pmm = pmm })
        ])
    else (let (found, bump) = Bump.alloc (pages * 4096 % 2 ^ 64) s.bump in
        (found, record s { bump = bump }))

unfoldable pub free_pages : (addr pages : ℕ) → Memory → Memory
free_pages addr pages s =
    if s.bitmap_ready
    then record s { pmm = free_frames (addr_to_frame s.pmm addr) pages s.pmm }
    else s
