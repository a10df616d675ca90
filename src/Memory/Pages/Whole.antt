-- ===== src/Memory/Pages/Whole.antt =====
-- Allocating pages and giving them back.
use ferrugem.Prelude.{ℕ, ◌<◌, ◌≡◌, ◌∙◌, sym, ap, true, some, arith, inl, inr, Option-cases}
use ferrugem.Memory.Bitmap.{Pmm, alloc_frames, frame_to_addr, addr_to_frame}
use ferrugem.Memory.Bitmap.Frames.{used, IsValid}
use ferrugem.Memory.Bitmap.Alloc.{free-alloc}
use ferrugem.Memory.Pages.{Memory, alloc_pages, free_pages}

addr_to_frame-frame_to_addr :
    (p : Pmm) (frame : ℕ) → addr_to_frame p (frame_to_addr p frame) ≡ frame
unfolding addr_to_frame frame_to_addr
addr_to_frame-frame_to_addr p frame = ground arith

-- Once the bitmap is ready, and if it is valid, giving back the address that `alloc_pages` returned
-- for one page or more puts every frame's state and the free count back as they were.
pub free_pages-alloc_pages :
    (pages : ℕ) (s : Memory) (addr : ℕ)
    → 0 < pages
    → s.bitmap_ready ≡ true
    → IsValid s.pmm
    → (alloc_pages pages s).0 ≡ some addr
    → let s' = free_pages addr pages (alloc_pages pages s).1 in
      ((g : ℕ) → used s'.pmm g ≡ used s.pmm g) × (s'.pmm.free_frames ≡ s.pmm.free_frames)
unfolding alloc_pages free_pages
free_pages-alloc_pages pages s addr h ready v e = elim (Option-cases (alloc_frames pages s.pmm).0) [
  | inl failed ↦ absurd (ground (arith, ready, failed, e))
  | inr (frame, found) ↦
      let at : frame_to_addr (alloc_frames pages s.pmm).1 frame ≡ addr =
        ground (arith, ready, found, e) in
      let back : addr_to_frame (alloc_frames pages s.pmm).1 addr ≡ frame =
        ap (addr_to_frame (alloc_frames pages s.pmm).1) (sym at)
        ∙ addr_to_frame-frame_to_addr (alloc_frames pages s.pmm).1 frame in
      rw (ready, found, ready, back) (free-alloc pages s.pmm frame h v found)
]
