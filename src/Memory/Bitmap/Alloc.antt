-- ===== src/Memory/Bitmap/Alloc.antt =====
-- `alloc_frames` and `free_frames` as a whole.
use ferrugem.Prelude.{
  ℕ, zero, suc, ◌+◌, ◌-◌, ◌%◌, ◌^◌, dec_lt, ◌<◌, ◌≤◌, ◌≡◌, refl, ◌∙◌, sym, ap, Bool, false, ◌&&◌,
  ◌||◌, not, Option, none, some, ◌==◌, leb, ltb, arith, Option-cases, inl, inr, ◌⊎◌,
}
use ferrugem.Memory.Bitmap.{Pmm, scan, mark_used, mark_all, release, alloc_frames, free_frames}
use ferrugem.Memory.Bitmap.Frames.{
  used, count_free, count_free-cong, IsValid, mark_used_lem, mark_used-fields, mark_used-free,
  release_lem, release-fields,
}
use ferrugem.Memory.Bitmap.Search.{AllFree, FirstRun, Searched, scan_lem}

-- Frame `g` is one of the `n` from `first` on.
abbrev pub within : (first n g : ℕ) → Bool
within first n g = leb first g && ltb g (first + n)

pub record Marked (p p' : Pmm) (first n : ℕ) : Type 0 where
  pub valid : IsValid p'
  pub total : p'.total_frames ≡ p.total_frames
  pub base : p'.mem_base ≡ p.mem_base
  pub marks : (g : ℕ) → used p' g ≡ (within first n g || used p g)
  pub fewer : p'.free_frames + n ≡ p.free_frames

pub mark_all-Marked :
    (n first : ℕ) (p : Pmm)
    → first + n ≤ p.total_frames
    → AllFree p first n
    → IsValid p
    → Marked p (mark_all first n p) first n
unfolding mark_all
mark_all-Marked zero first p h free v = record {
  valid = v;
  total = refl;
  base = refl;
  marks = λ g. ground arith;
  fewer = omega arith;
}
mark_all-Marked (suc n) first p h free v =
    let (valid, marks) = mark_used_lem p first (omega arith) v in
    let (total, base, _) = mark_used-fields p first in
    let not_yet : AllFree (mark_used first p) (first + 1) n =
      λ i lo hi. ground (arith, marks i, free i (omega arith) (omega arith)) in
    let rest : Marked (mark_used first p) (mark_all (first + 1) n (mark_used first p)) (first + 1)
        n =
      mark_all-Marked n (first + 1) (mark_used first p) (omega (arith, total)) not_yet valid in
    record {
      valid = rest.valid;
      total = rest.total ∙ total;
      base = rest.base ∙ base;
      marks = λ g. ground (arith, rest.marks g, marks g);
      fewer = omega (
        arith,
        rest.fewer,
        mark_used-free p first (omega arith) v (free first (omega arith) (omega arith)),
      );
    }

-- What a call of `alloc_frames` for one frame or more may come to.
abbrev pub Allocates : Pmm → ℕ → Option ℕ × Pmm → Type 0
Allocates p n (found, p') =
    ((found ≡ none) × (p' ≡ p) × ((s : ℕ) → s + n ≤ p.total_frames → ¬ AllFree p s n))
    ⊎ ((start : ℕ) × (found ≡ some start)
        × FirstRun p n start
        × ((g : ℕ) → used p' g ≡ (within start n g || used p g))
        × (p'.free_frames + n ≡ p.free_frames)
        × (p'.total_frames ≡ p.total_frames)
        × IsValid p')

-- On a valid bitmap, a request for one frame or more fails only when no `n` frames in a row are
-- free, and then changes nothing. Otherwise it gives the first such run: its frames, which were
-- free, are used afterwards and no other changes, the free count falls by `n`, and the bitmap stays
-- valid.
pub alloc_frames-Allocates :
    (n : ℕ) (p : Pmm) → 0 < n → IsValid p → Allocates p n (alloc_frames n p)
unfolding alloc_frames
alloc_frames-Allocates n p h v =
    let positive : (n == 0) ≡ false = ground arith in
    elim (Option-cases (scan n p (p.total_frames + 1) 0 0 0)) [
      | inl e ↦
          let none_left : Searched p n none = rw e at (scan_lem n p h) in
          rw (positive, alloc_frames, e) (inl (refl, refl, none_left))
      | inr (start, e) ↦
          let run : FirstRun p n start = rw e at (scan_lem n p h) in
          let m = mark_all-Marked n start p run.inside run.free v in
          rw (positive, alloc_frames, e)
            (inr (start, refl, run, m.marks, m.fewer, m.total, m.valid))
    ]

-- The first address of the bitmap stays.
pub alloc_frames-base :
    (n : ℕ) (p : Pmm) → 0 < n → IsValid p → (alloc_frames n p).1.mem_base ≡ p.mem_base
unfolding alloc_frames
alloc_frames-base n p h v =
    let positive : (n == 0) ≡ false = ground arith in
    elim (Option-cases (scan n p (p.total_frames + 1) 0 0 0)) [
      | inl e ↦ rw (positive, alloc_frames, e)
      | inr (start, e) ↦
          let run : FirstRun p n start = rw e at (scan_lem n p h) in
          let m = mark_all-Marked n start p run.inside run.free v in
          rw (positive, alloc_frames, e) m.base
    ]

-- Frame `g` is one of the `n` from `first` on, where the frame after 2⁶⁴ - 1 is 0.
abbrev pub given : (first n g : ℕ) → Bool
given first n g = ltb ((g + (2 ^ 64 - first)) % 2 ^ 64) n

given-within :
    (first n g : ℕ) → first + n ≤ 2 ^ 64 → g < 2 ^ 64 → given first n g ≡ within first n g
given-within first n g h lt = ground arith

given-suc :
    (first n g : ℕ)
    → first < 2 ^ 64
    → g < 2 ^ 64
    → given first (suc n) g ≡ (first == g || given ((first + 1) % 2 ^ 64) n g)
given-suc first n g h lt = ground arith

record Freed (p p' : Pmm) (first n : ℕ) : Type 0 where
  pub valid : IsValid p'
  pub total : p'.total_frames ≡ p.total_frames
  clears : (g : ℕ) → used p' g ≡ (not (given first n g && ltb g p.total_frames) && used p g)

free_frames-Freed :
    (n first : ℕ) (p : Pmm) → first < 2 ^ 64 → IsValid p → Freed p (free_frames first n p) first n
unfolding free_frames
free_frames-Freed zero first p h v = record { valid = v; total = refl; clears = λ g. ground arith }
free_frames-Freed (suc n) first p h v =
    let (valid, clears) = release_lem p first v in
    let (total, _, _) = release-fields p first in
    let next = (first + 1) % 2 ^ 64 in
    let rest : Freed (release first p) (free_frames next n (release first p)) next n =
      free_frames-Freed n next (release first p) (omega arith) valid in
    record {
      valid = rest.valid;
      total = rest.total ∙ total;
      clears = λ g. elim (dec_lt g p.total_frames) [
        | yes lt ↦ ground (
          arith,
          rest.clears g,
          clears g,
          total,
          given-suc first n g h (omega (arith, lt, v.small)),
        )
        | no ge ↦ ground (arith, rest.clears g, clears g, total)
      ];
    }

-- Freeing `n` frames from `first` on, where the sums wrap at 2⁶⁴, keeps a valid bitmap valid, and so
-- the free count right, whatever is freed, freed twice or out of range. A frame is used afterwards
-- exactly if it was used and is not one of those frames that are below the total.
pub free_frames_lem :
    (first n : ℕ) (p : Pmm)
    → first < 2 ^ 64
    → IsValid p
    → let p' = free_frames first n p in
      IsValid p'
      × ((g : ℕ) → used p' g ≡ (not (given first n g && ltb g p.total_frames) && used p g))
free_frames_lem first n p h v = let f = free_frames-Freed n first p h v in (f.valid, f.clears)

-- On a valid bitmap, freeing the one frame or more that were just allocated gives back every
-- frame's state, and the free count.
pub free-alloc :
    (n : ℕ) (p : Pmm) (start : ℕ)
    → 0 < n
    → IsValid p
    → (alloc_frames n p).0 ≡ some start
    → let p' = free_frames start n (alloc_frames n p).1 in
      ((g : ℕ) → used p' g ≡ used p g) × (p'.free_frames ≡ p.free_frames)
free-alloc n p start h v e = elim (alloc_frames-Allocates n p h v) [
  | inl (failed, _, _) ↦ absurd (cc (failed, e))
  | inr (start', found, run, marks, _, total, valid) ↦
      let same : start' ≡ start = cc (found, e) in
      let few : start + n ≤ 2 ^ 20 = omega (arith, same, run.inside, v.small) in
      let f = free_frames-Freed n start (alloc_frames n p).1 (omega (arith, few)) valid in
      let back : (g : ℕ) → used (free_frames start n (alloc_frames n p).1) g ≡ used p g = λ g.
        elim (dec_lt g p.total_frames) [
          | yes lt ↦ ground (
            arith,
            f.clears g,
            marks g,
            run.free g,
            run.inside,
            total,
            same,
            given-within start n g (omega (arith, few)) (omega (arith, lt, v.small)),
          )
          | no ge ↦ ground (arith, f.clears g, marks g, run.inside, total, same)
        ] in
      (
        back,
        f.valid.counted
            ∙ ap (count_free _) (f.total ∙ total)
            ∙ count_free-cong p _ back p.total_frames
            ∙ sym v.counted,
      )
]
