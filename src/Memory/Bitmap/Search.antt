-- ===== src/Memory/Bitmap/Search.antt =====
-- The search of `alloc_frames` finds the first run of free frames that is long enough.
use ferrugem.Prelude.{
  ℕ, zero, suc, ◌+◌, ◌*◌, ◌/◌, ◌%◌, ◌^◌, ◌<◌, ◌≤◌, ◌≡◌, refl, ◌≢◌, true, false, not, Option, none,
  some, ◌==◌, leb, if◌then◌else◌, arith, ℕ_discrete, dec_lt, Bool-cases, inl, inr, ==_iff, leb→le,
}
use Prim.Native.Nat.{bit_and}
use ferrugem.Bits.{and-pow, test_bit-max}
use ferrugem.Memory.Bitmap.{Pmm, scan, u64_max}
use ferrugem.Memory.Bitmap.Frames.{used}

-- The `n` frames from `s` on are free.
abbrev pub AllFree : Pmm → ℕ → ℕ → Type 0
AllFree p s n = (i : ℕ) → s ≤ i → i < s + n → used p i ≡ false

-- `start` is the first of all starts of `n` free frames within the total.
pub record FirstRun (p : Pmm) (n start : ℕ) : Type 0 where
  pub inside : start + n ≤ p.total_frames
  pub free : AllFree p start n
  pub first : (s : ℕ) → s < start → ¬ AllFree p s n

abbrev pub Searched : Pmm → ℕ → Option ℕ → Type 0
Searched p n none = (s : ℕ) → s + n ≤ p.total_frames → ¬ AllFree p s n
Searched p n (some start) = FirstRun p n start

-- What holds before a round: the last `len` frames are free, and no long enough run starts before.
record Scanning (n : ℕ) (p : Pmm) (start len f : ℕ) : Type 0 where
  short : len < n
  begins : (if len == 0 then f else start) + len ≡ f
  run : (i : ℕ) → i < f → f ≤ i + len → used p i ≡ false
  before : (s : ℕ) → s + len < f → ¬ AllFree p s n

used-full : (p : Pmm) (f g : ℕ) → p.bitmap (f / 64) ≡ u64_max → g / 64 ≡ f / 64 → used p g ≡ true
unfolding used
used-full p f g e same = rw (same, e) (test_bit-max 64 (g % 64) (omega arith))

bit-used : (p : Pmm) (f : ℕ) → (bit_and (p.bitmap (f / 64)) (2 ^ (f % 64)) == 0) ≡ not (used p f)
unfolding used
bit-used p f = and-pow (p.bitmap (f / 64)) (f % 64)

-- A used frame within the run refutes it.
not_free : (p : Pmm) (s n g : ℕ) → used p g ≡ true → s ≤ g → g < s + n → ¬ AllFree p s n
not_free p s n g u lo hi all = cc (u, all g lo hi)

module _ (n : ℕ) (p : Pmm) where
  Scanning-full :
      (start len f : ℕ)
      → p.bitmap (f / 64) ≡ u64_max
      → Scanning n p start len f
      → Scanning n p ((f / 64 + 1) * 64) 0 ((f / 64 + 1) * 64)
  Scanning-full start len f e v = record {
    short = omega (arith, v.short);
    begins = omega arith;
    run = λ i lt le. absurd (omega arith);
    before = λ s lt. elim (dec_lt (s + len) f) [
      | yes earlier ↦ v.before s earlier
      | no late ↦ elim (dec_lt f s) [
        | yes past ↦
            not_free p s n s (used-full p f s e (omega arith)) (omega arith)
              (omega (arith, v.short))
        | no upto ↦ not_free p s n f (used-full p f f e refl) (omega arith) (omega (arith, v.short))
      ]
    ];
  }

  Scanning-used :
      (start len f : ℕ) → used p f ≡ true → Scanning n p start len f → Scanning n p start 0 (f + 1)
  Scanning-used start len f u v = record {
    short = omega (arith, v.short);
    begins = ground arith;
    run = λ i lt le. absurd (omega arith);
    before = λ s lt. elim (dec_lt (s + len) f) [
      | yes earlier ↦ v.before s earlier
      | no late ↦ not_free p s n f u (omega arith) (omega (arith, v.short))
    ];
  }

  -- The run with frame `f`, which is free.
  run_with :
      (start len f : ℕ)
      → used p f ≡ false
      → Scanning n p start len f
      → (i : ℕ) → i < f + 1
      → f ≤ i + len
      → used p i ≡ false
  run_with start len f u v i lt le = elim (ℕ_discrete i f) [
    | yes e ↦ rw e u
    | no ne ↦ v.run i (omega arith) le
  ]

  Scanning-free :
      (start len f : ℕ)
      → used p f ≡ false
      → len + 1 ≢ n
      → Scanning n p start len f
      → Scanning n p (if len == 0 then f else start) (len + 1) (f + 1)
  Scanning-free start len f u ne v = record {
    short = omega (arith, v.short);
    begins = ground (arith, v.begins);
    run = λ i lt le. run_with start len f u v i lt (omega arith);
    before = λ s lt. v.before s (omega arith);
  }

  Scanning-found :
      (start len f : ℕ)
      → used p f ≡ false
      → len + 1 ≡ n
      → f < p.total_frames
      → Scanning n p start len f
      → FirstRun p n (if len == 0 then f else start)
  Scanning-found start len f u e h v = record {
    inside = omega (arith, v.begins);
    free =
        λ i lo hi. run_with start len f u v i (omega (arith, v.begins)) (omega (arith, v.begins));
    first = λ s lt. v.before s (omega (arith, v.begins));
  }

  Scanning-end :
      (start len f : ℕ) → p.total_frames ≤ f → Scanning n p start len f → Searched p n none
  Scanning-end start len f h v s le = v.before s (omega (arith, v.short))

  scan-Searched :
      (fuel start len f : ℕ)
      → p.total_frames < fuel + f
      → Scanning n p start len f
      → Searched p n (scan n p fuel start len f)
  unfolding scan
  scan-Searched zero start len f enough v = Scanning-end start len f (omega arith) v
  scan-Searched (suc fuel) start len f enough v = elim (Bool-cases (leb p.total_frames f)) [
    | inl over ↦ rw over (Scanning-end start len f (leb→le _ _ over) v)
    | inr within ↦ rw within (elim (Bool-cases (p.bitmap (f / 64) == u64_max)) [
      | inl full ↦
          let e : p.bitmap (f / 64) ≡ u64_max = (==_iff _ _).0 full in
          rw full (
            scan-Searched fuel ((f / 64 + 1) * 64) 0 ((f / 64 + 1) * 64) (omega arith)
              (Scanning-full start len f e v))
      | inr some_free ↦
          rw (some_free, bit-used p f)
            (elim (Bool-cases (used p f)) [
              | inl u ↦
                  rw u (
                    scan-Searched fuel start 0 (f + 1) (omega arith)
                      (Scanning-used start len f u v))
              | inr u ↦ rw u (elim (Bool-cases (len + 1 == n)) [
                | inl done ↦
                    rw done (Scanning-found start len f u ((==_iff _ _).0 done) (ground arith) v)
                | inr more ↦ rw more (
                    scan-Searched fuel (if len == 0 then f else start) (len + 1) (f + 1)
                      (omega arith)
                      (Scanning-free start len f u (λ e. cc (more, (==_iff _ _).1 e)) v))
              ])
            ])
    ])
  ]

  -- From frame 0, with one unit of fuel for each frame and one more.
  pub scan_lem : 0 < n → Searched p n (scan n p (p.total_frames + 1) 0 0 0)
  scan_lem h = scan-Searched (p.total_frames + 1) 0 0 0 (omega arith) (record {
    short = h;
    begins = refl;
    run = λ i lt le. elim lt [ ];
    before = λ s lt. elim lt [ ];
  })
