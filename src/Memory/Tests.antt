-- ===== src/Memory/Tests.antt =====
-- The allocators at concrete inputs.
use ferrugem.Prelude.{ℕ, ◌^◌, ◌-◌, ◌≡◌, refl, true, ◌&&◌, not, [], ◌∷◌, ltb, arith}
use ferrugem.Memory.Mmap.{MemoryMap, usable, empty, add, entries, largest_usable}
use ferrugem.Memory.Mmap.Largest.{Chosen, largest_usable-Chosen}
use ferrugem.Memory.Bump.{BumpAllocator}
use ferrugem.Memory.Bump
use ferrugem.Memory.Bump.Disjoint
use ferrugem.Memory.Bump.Disjoint.{blocks, Ascending, alloc-Allocates, blocks-Ascending}
use ferrugem.Memory.Bitmap.{
  Pmm, alloc_frames, free_frames, frame_to_addr, scan, mark_all, mark_used,
}
use ferrugem.Memory.Bitmap.Frames.{used, IsValid}
use ferrugem.Memory.Bitmap.Alloc.{
  given, mark_all-Marked, Allocates, alloc_frames-Allocates, free_frames_lem, free-alloc,
}
use ferrugem.Memory.Bitmap.Init.{
  all_free, all_free-used, init_from_mmap, Starts, init_from_mmap_lem, all_free-IsValid,
}
use ferrugem.Memory.Pages.{Memory, alloc_pages, free_pages}
use ferrugem.Memory.Pages.Whole.{free_pages-alloc_pages}

-- Eight frames from 1 MiB on.
abbrev eight : Pmm
eight = all_free 0x100000 8

eight-IsValid : IsValid eight
eight-IsValid = all_free-IsValid 0x100000 8 (omega arith)

alloc_frames-Allocates_example : Allocates eight 3 (alloc_frames 3 eight)
alloc_frames-Allocates_example = alloc_frames-Allocates 3 eight (omega arith) eight-IsValid

abbrev full_eight : Pmm
full_eight = mark_all 0 8 eight

full_eight-IsValid : IsValid full_eight
unfolding all_free
full_eight-IsValid =
    (mark_all-Marked 8 0 eight (omega arith) (λ g lo hi. all_free-used 0x100000 8 g)
      eight-IsValid).valid

-- Three frames from the greatest number on: that one, which is out of range, then 0 and 1.
free_frames_lem_example :
    let p' = free_frames (2 ^ 64 - 1) 3 full_eight in
    IsValid p'
    × ((g : ℕ)
        → used p' g
          ≡ (not (given (2 ^ 64 - 1) 3 g && ltb g full_eight.total_frames) && used full_eight g))
free_frames_lem_example = free_frames_lem (2 ^ 64 - 1) 3 full_eight (omega arith) full_eight-IsValid

free-alloc_example :
    let p' = free_frames 0 3 (alloc_frames 3 eight).1 in
    ((g : ℕ) → used p' g ≡ used eight g) × (p'.free_frames ≡ eight.free_frames)
unfolding alloc_frames scan all_free
free-alloc_example = free-alloc 3 eight 0 (omega arith) eight-IsValid refl

abbrev memory : Memory
memory = record { bump = Bump.new 0 0; bitmap_ready = true; pmm = eight }

free_pages-alloc_pages_example :
    let s' = free_pages 0x100000 3 (alloc_pages 3 memory).1 in
    ((g : ℕ) → used s'.pmm g ≡ used eight g) × (s'.pmm.free_frames ≡ eight.free_frames)
unfolding alloc_pages alloc_frames scan all_free frame_to_addr mark_all mark_used
free_pages-alloc_pages_example =
    free_pages-alloc_pages 3 memory 0x100000 (omega arith) refl eight-IsValid refl

-- Two usable regions, the lower one cut by the lowest base.
abbrev two_regions : MemoryMap
two_regions = add 0x100000 0x700000 usable (add 0 0x200000 usable empty)

largest_usable-Chosen_example :
    Chosen 0x100000 (entries two_regions) (largest_usable 0x100000 two_regions)
largest_usable-Chosen_example = largest_usable-Chosen 0x100000 two_regions

init_from_mmap_lem_example :
    let p = init_from_mmap 0x100000 0x140000 0x100000 0x7f00000 two_regions in
    IsValid p × Starts 0x100000 0x140000 0x100000 0x7f00000 two_regions p
init_from_mmap_lem_example =
    init_from_mmap_lem 0x100000 0x140000 0x100000 0x7f00000 two_regions (omega arith)

abbrev early : BumpAllocator
early = record { start = 4096; end = 65536; current = 5000 }

early-IsValid : Disjoint.IsValid early
early-IsValid = record { small = omega arith; begun = omega arith; within = omega arith }

alloc-Allocates_example : Disjoint.Allocates 100 early (Bump.alloc 100 early)
alloc-Allocates_example = alloc-Allocates 100 early early-IsValid

blocks-Ascending_example :
    Ascending early.current early.end (blocks (100 ∷ 90000 ∷ 4096 ∷ []) early)
blocks-Ascending_example = blocks-Ascending (100 ∷ 90000 ∷ 4096 ∷ []) early early-IsValid
