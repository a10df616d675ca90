-- ===== src/Machine/Frames.antt =====
-- Frames that are taken, as addresses: what a call of `alloc_pages(1)` gives was not taken before.
use ferrugem.Prelude.{
  ℕ, ◌+◌, ◌*◌, ◌%◌, ◌^◌, ◌<◌, ◌≤◌, ◌≡◌, ◌⊎◌, inl, inr, refl, ap, arith, none, some, true, dec_lt,
  ◌≢◌,
}
use ferrugem.Memory.Bitmap.{alloc_frames, frame_to_addr}
use ferrugem.Memory.Bitmap.Frames.{used, IsValid}
use ferrugem.Memory.Bitmap.Alloc.{alloc_frames-Allocates, alloc_frames-base}
use ferrugem.Memory.Pages
use ferrugem.Memory.Pages.{Memory}
use ferrugem.Machine.{Machine, alloc_pages}

-- The bitmap is in use, is valid, and covers whole pages below 2⁶⁴.
pub record Ready (s : Memory) : Type 0 where
  pub ready : s.bitmap_ready ≡ true
  pub valid : IsValid s.pmm
  pub aligned : s.pmm.mem_base % 4096 ≡ 0
  pub bounded : s.pmm.mem_base + s.pmm.total_frames * 4096 ≤ 2 ^ 64

-- `a` is the address of a frame that is taken.
pub record Held (s : Memory) (a : ℕ) : Type 0 where
  pub frame : ℕ
  pub at : a ≡ s.pmm.mem_base + frame * 4096
  pub inside : frame < s.pmm.total_frames
  pub taken : used s.pmm frame ≡ true

-- Two frames are the same or do not overlap.
pub Held-apart :
    {s : Memory} {a b : ℕ} → Held s a → Held s b → (a ≡ b) ⊎ ((a + 4096 ≤ b) ⊎ (b + 4096 ≤ a))
Held-apart h k = elim (dec_lt h.frame k.frame) [
  | yes lt ↦ inr (inl (omega (arith, h.at, k.at)))
  | no ge ↦ elim (dec_lt k.frame h.frame) [
    | yes gt ↦ inr (inr (omega (arith, h.at, k.at)))
    | no le ↦ inl (omega (arith, h.at, k.at))
  ]
]

pub Held-page : {s : Memory} {a : ℕ} → Ready s → Held s a → (a % 4096 ≡ 0) × (a + 4096 ≤ 2 ^ 64)
Held-page r h = (omega (arith, r.aligned, h.at), omega (arith, r.bounded, h.at, h.inside))

pub record Fresh (s s' : Memory) (new : ℕ) : Type 0 where
  pub ready : Ready s'
  pub held : Held s' new
  pub kept : (a : ℕ) → Held s a → Held s' a
  pub unlike : (a : ℕ) → Held s a → ¬ (a ≡ new)

-- Once the bitmap is in use, the memory after a successful call has the bitmap's new state.
memory-after :
    (m : Machine) (start : ℕ)
    → m.memory.bitmap_ready ≡ true
    → (alloc_frames 1 m.memory.pmm).0 ≡ some start
    → (alloc_pages 1 m).1.memory ≡ record m.memory { pmm = (alloc_frames 1 m.memory.pmm).1 }
unfolding alloc_pages Pages.alloc_pages
memory-after m start ready found = ground arith

address-after :
    (m : Machine) (start new : ℕ)
    → m.memory.bitmap_ready ≡ true
    → (alloc_frames 1 m.memory.pmm).0 ≡ some start
    → (alloc_frames 1 m.memory.pmm).1.mem_base ≡ m.memory.pmm.mem_base
    → (alloc_pages 1 m).0 ≡ some new
    → new ≡ m.memory.pmm.mem_base + start * 4096
unfolding alloc_pages Pages.alloc_pages frame_to_addr
address-after m start new ready found base e = ground arith

failed-ne-some :
    (m : Machine) (new : ℕ)
    → m.memory.bitmap_ready ≡ true
    → (alloc_frames 1 m.memory.pmm).0 ≡ none
    → (alloc_pages 1 m).0 ≢ some new
unfolding alloc_pages Pages.alloc_pages
failed-ne-some m new ready failed = ground arith

pub alloc_pages-Fresh :
    (m : Machine) (new : ℕ)
    → Ready m.memory
    → (alloc_pages 1 m).0 ≡ some new
    → Fresh m.memory (alloc_pages 1 m).1.memory new
alloc_pages-Fresh m new r e = elim (alloc_frames-Allocates 1 m.memory.pmm (omega arith) r.valid) [
  | inl (failed, _, _) ↦ absurd (failed-ne-some m new r.ready failed e)
  | inr (start, found, run, marks, _, total, valid) ↦
      let base = alloc_frames-base 1 m.memory.pmm (omega arith) r.valid in
      let at = address-after m start new r.ready found base e in
      rw (memory-after m start r.ready found) (record {
        ready = record {
          ready = r.ready;
          valid = valid;
          aligned = omega (arith, base, r.aligned);
          bounded = omega (arith, base, total, r.bounded);
        };
        held = record {
          frame = start;
          at = omega (arith, base, at);
          inside = omega (arith, total, run.inside);
          taken = ground (arith, marks start);
        };
        kept = λ a h. record {
          frame = h.frame;
          at = omega (arith, base, h.at);
          inside = omega (arith, total, h.inside);
          taken = ground (arith, marks h.frame, h.taken);
        };
        unlike = λ a h same.
            let e : h.frame ≡ start = omega (arith, h.at, at, same) in
            cc (ap (used m.memory.pmm) e, h.taken, run.free start (omega arith) (omega arith));
      })
]

pub alloc_pages-none :
    (m : Machine) → Ready m.memory → (alloc_pages 1 m).0 ≡ none → (alloc_pages 1 m).1 ≡ m
unfolding alloc_pages Pages.alloc_pages
alloc_pages-none m r e = elim (alloc_frames-Allocates 1 m.memory.pmm (omega arith) r.valid) [
  | inl (failed, same, _) ↦ ground (arith, r.ready)
  | inr (start, found, _, _, _, _, _) ↦ absurd (ground (arith, r.ready))
]

pub ram-alloc_pages : (m : Machine) → (alloc_pages 1 m).1.ram ≡ m.ram
unfolding alloc_pages
ram-alloc_pages m = refl
