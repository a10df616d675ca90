-- ===== src/Memory/Bitmap/Init.antt =====
-- `init_from_mmap` of kernel/src/memory/bitmap.rs. The lowest base to use, the end of the kernel
-- image and the fallback range depend on the architecture and the linker, and are arguments.
use ferrugem.Prelude.{
  ℕ, zero, suc, ◌+◌, ◌-◌, ◌*◌, ◌/◌, ◌%◌, ◌<◌, ◌≤◌, ◌≡◌, refl, sym, false, if◌then◌else◌, ltb, min,
  arith, Option-cases, inl, inr, ◌⊎◌, none, some,
}
use ferrugem.Bits.{test_bit-zero}
use ferrugem.Memory.Mmap.{MemoryMap, MemoryRegion, entries, largest_usable}
use ferrugem.Memory.Mmap.Largest.{Tops, IsPartOf, Chosen, largest_usable-Chosen}
use ferrugem.Memory.Bitmap.{Pmm, max_frames, mark_all}
use ferrugem.Memory.Bitmap.Frames.{used, count_free, IsValid}
use ferrugem.Memory.Bitmap.Alloc.{within, Marked, mark_all-Marked}

-- The statics as they are after `init_fallback`, and as the range starts: all frames free.
unfoldable pub all_free : (base frames : ℕ) → Pmm
all_free base frames = record {
  bitmap = λ i. 0;
  mem_base = base;
  total_frames = frames;
  free_frames = frames;
}

unfoldable pub kernel_frames : (kernel_end base frames : ℕ) → ℕ
kernel_frames kernel_end base frames =
    if ltb base kernel_end then min ((kernel_end - base + 4095) / 4096) frames else 0

unfoldable pub init_from_mmap :
    (min_base kernel_end fallback_base fallback_size : ℕ) → MemoryMap → Pmm
unfolding all_free kernel_frames
init_from_mmap min_base kernel_end fallback_base fallback_size m =
    elim (largest_usable min_base m) [
      | none ↦ all_free fallback_base (fallback_size / 4096)
      | some region ↦
          let frames = min (region.size / 4096) max_frames in
          mark_all 0 (kernel_frames kernel_end region.base frames) (all_free region.base frames)
    ]

count_free-all : (base frames n : ℕ) → count_free (all_free base frames) n ≡ n
unfolding count_free used all_free
count_free-all base frames zero = refl
count_free-all base frames (suc n) = rw (test_bit-zero, count_free-all base frames n) (omega arith)

pub all_free-IsValid : (base frames : ℕ) → frames ≤ max_frames → IsValid (all_free base frames)
unfolding all_free
all_free-IsValid base frames h = record {
  words = λ i. omega arith;
  small = h;
  counted = sym (count_free-all base frames frames);
}

pub all_free-used : (base frames g : ℕ) → used (all_free base frames) g ≡ false
unfolding used all_free
all_free-used base frames g = test_bit-zero (g % 64)

kernel_frames-le : (kernel_end base frames : ℕ) → kernel_frames kernel_end base frames ≤ frames
unfolding kernel_frames
kernel_frames-le kernel_end base frames = ground arith

-- The kernel's frames are those that begin below the end of the image.
kernel_frames-within :
    (kernel_end base frames g : ℕ)
    → g < frames
    → within 0 (kernel_frames kernel_end base frames) g ≡ ltb (base + g * 4096) kernel_end
unfolding kernel_frames
kernel_frames-within kernel_end base frames g h = ground arith

-- The bitmap that the kernel starts with. Without a usable region from `min_base` on, the fallback
-- range is all free; otherwise the frames of `region` are used as far as the kernel image reaches.
abbrev pub Starts : (min_base kernel_end fallback_base fallback_size : ℕ) → MemoryMap → Pmm → Type 0
Starts min_base kernel_end fallback_base fallback_size m p =
    (Tops min_base 0 (entries m)
      × (p.mem_base ≡ fallback_base)
      × (p.total_frames ≡ fallback_size / 4096)
      × ((g : ℕ) → used p g ≡ false))
    ⊎ ((region : MemoryRegion) × IsPartOf min_base region (entries m)
        × Tops min_base region.size (entries m)
        × (p.mem_base ≡ region.base)
        × (p.total_frames ≡ min (region.size / 4096) max_frames)
        × ((g : ℕ) → g < p.total_frames → used p g ≡ ltb (p.mem_base + g * 4096) kernel_end))

-- If the fallback range has no more frames than the bitmap, then the bitmap that the kernel starts
-- with is valid. If no usable region of the map has a byte from `min_base` on, it is the fallback
-- range, with every frame free. Otherwise it is a largest part from `min_base` on of a usable region,
-- in whole frames and as far as the bitmap goes, and a frame is used exactly when it begins below the
-- end of the kernel image.
pub init_from_mmap_lem :
    (min_base kernel_end fallback_base fallback_size : ℕ) (m : MemoryMap)
    → fallback_size / 4096 ≤ max_frames
    → let p = init_from_mmap min_base kernel_end fallback_base fallback_size m in
      IsValid p × Starts min_base kernel_end fallback_base fallback_size m p
unfolding init_from_mmap all_free
init_from_mmap_lem min_base kernel_end fallback_base fallback_size m small =
    elim (Option-cases (largest_usable min_base m)) [
      | inl e ↦
          let none_left : Chosen min_base (entries m) none =
            rw e at (largest_usable-Chosen min_base m) in
          rw (e, init_from_mmap)
            (
              all_free-IsValid fallback_base (fallback_size / 4096) small,
              inl (none_left, refl, refl, all_free-used fallback_base (fallback_size / 4096)),
            )
      | inr (region, e) ↦
          let chosen : Chosen min_base (entries m) (some region) =
            rw e at (largest_usable-Chosen min_base m) in
          let frames = min (region.size / 4096) max_frames in
          let n = kernel_frames kernel_end region.base frames in
          let few : frames ≤ max_frames = omega arith in
          let k : Marked (all_free region.base frames) (mark_all 0 n (all_free region.base frames))
              0 n =
            mark_all-Marked n 0 (all_free region.base frames)
              (omega (arith, kernel_frames-le kernel_end region.base frames))
              (λ g lo hi. all_free-used region.base frames g)
              (all_free-IsValid region.base frames few) in
          rw (e, init_from_mmap)
            (
              k.valid,
              inr (
                region,
                chosen.0,
                chosen.1,
                k.base,
                k.total,
                λ g lt. ground (
                  arith,
                  k.marks g,
                  k.total,
                  k.base,
                  all_free-used region.base frames g,
                  kernel_frames-within kernel_end region.base frames g,
                  lt,
                ),
              ),
            )
    ]
