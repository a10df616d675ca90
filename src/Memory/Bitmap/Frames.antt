-- ===== src/Memory/Bitmap/Frames.antt =====
-- Frames one by one: which are used, and how many are free.
use native.Mathlib.Nat.{pow-le-pow_right}
use ferrugem.Prelude.{
  ℕ, zero, suc, ◌+◌, ◌-◌, ◌/◌, ◌%◌, ◌^◌, ◌<◌, ◌≤◌, ◌≡◌, refl, ap, Bool, false, ◌||◌, ◌&&◌, not,
  ◌==◌, ltb, if◌then◌else◌, arith, ℕ_discrete,
}
use ferrugem.Bits.{
  test_bit, bit_not, and-pow, test_bit-or, test_bit-and, test_bit-pow, test_bit-bit_not, and-lt,
  or-lt,
}
use ferrugem.Memory.Bitmap.{Pmm, mark_used, release, max_frames}

unfoldable pub used : Pmm → ℕ → Bool
used p f = test_bit (p.bitmap (f / 64)) (f % 64)

-- How many of the first `n` frames are free.
unfoldable pub count_free : Pmm → ℕ → ℕ
count_free p zero = 0
count_free p (suc n) = count_free p n + (if used p n then 0 else 1)

pub record IsValid (p : Pmm) : Type 0 where
  pub words : (i : ℕ) → p.bitmap i < 2 ^ 64
  pub small : p.total_frames ≤ max_frames
  pub counted : p.free_frames ≡ count_free p p.total_frames

pub pow-lt : (b : ℕ) → b < 64 → 2 ^ b < 2 ^ 64
pow-lt b h = omega (arith, pow-le-pow_right {n = 2} (omega arith) {i = b} {j = 63} (omega arith))

-- Which bit a store to another frame's word or bit leaves alone.
used-mark : (p : Pmm) (f g : ℕ) → used (mark_used f p) g ≡ (f == g || used p g)
unfolding used mark_used
used-mark p f g = ground (
  arith,
  and-pow (p.bitmap (f / 64)) (f % 64),
  test_bit-or (p.bitmap (f / 64)) (2 ^ (f % 64)) (g % 64),
  test_bit-pow (f % 64) (g % 64),
)

used-release :
    (p : Pmm) (f g : ℕ)
    → ((i : ℕ) → p.bitmap i < 2 ^ 64)
    → used (release f p) g ≡ (not (f == g && ltb f p.total_frames) && used p g)
unfolding used release
used-release p f g words = ground (
  arith,
  and-pow (p.bitmap (f / 64)) (f % 64),
  test_bit-and (p.bitmap (f / 64)) (bit_not 64 (2 ^ (f % 64))) (g % 64),
  test_bit-bit_not 64 (2 ^ (f % 64)) (g % 64) (pow-lt (f % 64) (omega arith)),
  test_bit-pow (f % 64) (g % 64),
)

-- One more used frame is one free frame fewer.
count_free-mark :
    (p p' : Pmm) (f : ℕ)
    → ((g : ℕ) → used p' g ≡ (f == g || used p g))
    → (n : ℕ) → count_free p' n + (if ltb f n && not (used p f) then 1 else 0) ≡ count_free p n
unfolding count_free
count_free-mark p p' f h zero = ground arith
count_free-mark p p' f h (suc n) = elim (ℕ_discrete f n) [
  | yes e ↦
      let at_n : used p f ≡ used p n = ap (used p) e in
      ground (arith, h n, count_free-mark p p' f h n)
  | no ne ↦ ground (arith, h n, count_free-mark p p' f h n)
]

count_free-release :
    (p p' : Pmm) (f m : ℕ)
    → ((g : ℕ) → used p' g ≡ (not (f == g && ltb f m) && used p g))
    → (n : ℕ) → n ≤ m
    → count_free p' n ≡ count_free p n + (if ltb f n && used p f then 1 else 0)
unfolding count_free
count_free-release p p' f m h zero le = ground arith
count_free-release p p' f m h (suc n) le = elim (ℕ_discrete f n) [
  | yes e ↦
      let at_n : used p f ≡ used p n = ap (used p) e in
      ground (arith, h n, count_free-release p p' f m h n (omega arith))
  | no ne ↦ ground (arith, h n, count_free-release p p' f m h n (omega arith))
]

pub mark_used-fields :
    (p : Pmm) (f : ℕ)
    → ((mark_used f p).total_frames ≡ p.total_frames)
      × ((mark_used f p).mem_base ≡ p.mem_base)
      × ((mark_used f p).free_frames ≡ (if used p f then p.free_frames else p.free_frames - 1))
unfolding mark_used used
mark_used-fields p f = ground (arith, and-pow (p.bitmap (f / 64)) (f % 64))

pub release-fields :
    (p : Pmm) (f : ℕ)
    → ((release f p).total_frames ≡ p.total_frames)
      × ((release f p).mem_base ≡ p.mem_base)
      × ((release f p).free_frames
          ≡ (if ltb f p.total_frames && used p f then p.free_frames + 1 else p.free_frames))
unfolding release used
release-fields p f = ground (arith, and-pow (p.bitmap (f / 64)) (f % 64))

mark_used-words :
    (p : Pmm) (f : ℕ)
    → ((i : ℕ) → p.bitmap i < 2 ^ 64)
    → (i : ℕ) → (mark_used f p).bitmap i < 2 ^ 64
unfolding mark_used
mark_used-words p f h i = ground (
  arith,
  h i,
  or-lt 64 (p.bitmap (f / 64)) (2 ^ (f % 64)) (h (f / 64)) (pow-lt (f % 64) (omega arith)),
)

release-words :
    (p : Pmm) (f : ℕ) → ((i : ℕ) → p.bitmap i < 2 ^ 64) → (i : ℕ) → (release f p).bitmap i < 2 ^ 64
unfolding release
release-words p f h i =
    ground (arith, h i, and-lt 64 (p.bitmap (f / 64)) (bit_not 64 (2 ^ (f % 64))) (h (f / 64)))

-- Marking a free frame takes one from the free count.
pub mark_used-free :
    (p : Pmm) (f : ℕ)
    → f < p.total_frames
    → IsValid p
    → used p f ≡ false
    → (mark_used f p).free_frames + 1 ≡ p.free_frames
mark_used-free p f h v u = ground (
  arith,
  v.counted,
  mark_used-fields p f,
  count_free-mark p (mark_used f p) f (used-mark p f) p.total_frames,
)

-- Marking one frame below the total: it is used, no other changes, and the free count is right.
pub mark_used_lem :
    (p : Pmm) (f : ℕ)
    → f < p.total_frames
    → IsValid p
    → IsValid (mark_used f p) × ((g : ℕ) → used (mark_used f p) g ≡ (f == g || used p g))
mark_used_lem p f h v = (
  record {
    words = mark_used-words p f v.words;
    small = omega (arith, mark_used-fields p f, v.small);
    counted =
        let (total, _, free) = mark_used-fields p f in
        rw total (
          ground (arith, free, count_free-mark p (mark_used f p) f (used-mark p f) p.total_frames));
  },
  used-mark p f,
)

pub release_lem :
    (p : Pmm) (f : ℕ)
    → IsValid p
    → IsValid (release f p)
      × ((g : ℕ) → used (release f p) g ≡ (not (f == g && ltb f p.total_frames) && used p g))
release_lem p f v = (
  record {
    words = release-words p f v.words;
    small = omega (arith, release-fields p f, v.small);
    counted =
        let (total, _, free) = release-fields p f in
        rw total (
          ground (
            arith,
            free,
            count_free-release p (release f p) f p.total_frames (λ g. used-release p f g v.words)
                p.total_frames (omega arith),
          ));
  },
  λ g. used-release p f g v.words,
)

pub count_free-cong :
    (p p' : Pmm) → ((g : ℕ) → used p' g ≡ used p g) → (n : ℕ) → count_free p' n ≡ count_free p n
unfolding count_free
count_free-cong p p' h zero = refl
count_free-cong p p' h (suc n) = rw (h n, count_free-cong p p' h n)
