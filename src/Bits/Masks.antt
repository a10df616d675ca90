-- ===== src/Bits/Masks.antt =====
-- Masks on the low bits of a word: clearing them, keeping them, and setting them where they are clear.
use Prim.Native.Nat.{bit_and, bit_or, bit_or-bitwise}
use native.Mathlib.Nat.{pow-succ', one-le-pow}
use ferrugem.Prelude.{
  ℕ, zero, suc, ◌+◌, ◌-◌, ◌*◌, ◌/◌, ◌%◌, ◌^◌, ◌<◌, ◌≤◌, ◌≡◌, refl, ap, max, ◌∙◌, arith,
}
use ferrugem.Bits.Digits.{and_step, or_step}
use ferrugem.Bits.{and-zero}

or-zero_fuel : (n a : ℕ) → a ≤ n → bit_or a 0 ≡ a
or-zero_fuel n zero h = refl
or-zero_fuel zero (suc a) h = absurd (omega arith)
or-zero_fuel (suc n) (suc a) h =
    omega (arith, or_step (suc a) 0, or-zero_fuel n (suc a / 2) (omega arith))

pub or-zero : (a : ℕ) → bit_or a 0 ≡ a
or-zero a = or-zero_fuel a a (omega arith)

pub zero-or : (a : ℕ) → bit_or 0 a ≡ a
zero-or a = omega (arith, bit_or-bitwise 0 a)

-- A word whose high part is `a` and whose `k` low bits are `b`.
double : (k a : ℕ) → a * 2 ^ suc k ≡ a * 2 ^ k * 2
double k a = omega (arith, ap (λ (t : ℕ). a * t) (pow-succ' 2 k))

half : (k a b : ℕ) → (a * 2 ^ suc k + b) / 2 ≡ a * 2 ^ k + b / 2
half k a b = omega (arith, double k a)

pub or-low :
    (k a b d : ℕ) → b < 2 ^ k → d < 2 ^ k → bit_or (a * 2 ^ k + b) d ≡ a * 2 ^ k + bit_or b d
or-low zero a b d hb hd =
    let e : b ≡ 0 = omega arith in
    let f : d ≡ 0 = omega arith in rw (e, f) (omega (arith, or-zero (a * 1 + 0), or-zero 0))
or-low (suc k) a b d hb hd =
    let step : bit_or (a * 2 ^ suc k + b) d
        ≡ bit_or (a * 2 ^ k + b / 2) (d / 2) * 2 + max (b % 2) (d % 2) =
      rw (half k a b) at (or_step (a * 2 ^ suc k + b) d) ∙ omega (arith, double k a) in
    omega (
      arith,
      step,
      or_step b d,
      or-low k a (b / 2) (d / 2) (omega (arith, pow-succ' 2 k)) (omega (arith, pow-succ' 2 k)),
      double k a,
    )

pub and-high : (k a b m : ℕ) → b < 2 ^ k → bit_and (a * 2 ^ k + b) (m * 2 ^ k) ≡ bit_and a m * 2 ^ k
and-high zero a b m lt =
    let e : a * 1 + b ≡ a = omega arith in
    let f : m * 1 ≡ m = omega arith in rw (e, f) (omega arith)
and-high (suc k) a b m lt =
    let e : m * 2 ^ suc k / 2 ≡ m * 2 ^ k = omega (arith, double k m) in
    let step : bit_and (a * 2 ^ suc k + b) (m * 2 ^ suc k)
        ≡ bit_and (a * 2 ^ k + b / 2) (m * 2 ^ k) * 2 =
      rw (half k a b, e) at (and_step (a * 2 ^ suc k + b) (m * 2 ^ suc k))
      ∙ omega (arith, double k m) in
    omega
      (arith, step, and-high k a (b / 2) m (omega (arith, pow-succ' 2 k)), double k (bit_and a m))

pub and-low : (k a b : ℕ) → b < 2 ^ k → bit_and (a * 2 ^ k + b) (2 ^ k - 1) ≡ b
and-low zero a b lt = omega (arith, and-zero (a * 1 + b))
and-low (suc k) a b lt =
    let e : (2 ^ suc k - 1) / 2 ≡ 2 ^ k - 1 = omega (arith, pow-succ' 2 k) in
    let step : bit_and (a * 2 ^ suc k + b) (2 ^ suc k - 1)
        ≡ bit_and (a * 2 ^ k + b / 2) (2 ^ k - 1) * 2 + b % 2 =
      rw (half k a b, e) at (and_step (a * 2 ^ suc k + b) (2 ^ suc k - 1))
      ∙ omega (arith, double k a, pow-succ' 2 k, one-le-pow k 2) in
    omega (arith, step, and-low k a (b / 2) (omega (arith, pow-succ' 2 k)))

and-max : (w a : ℕ) → a < 2 ^ w → bit_and a (2 ^ w - 1) ≡ a
and-max w a h = let e : 0 * 2 ^ w + a ≡ a = omega arith in rw e at (and-low w 0 a h)

-- The masks `!0xFFF` and `0xFFF` of a page.
pub and-page : (a : ℕ) → a < 2 ^ 64 → bit_and a (2 ^ 64 - 1 - 0xFFF) ≡ a / 4096 * 4096
and-page a h =
    let e : a / 4096 * 4096 + a % 4096 ≡ a = omega arith in
    let f : bit_and (a / 4096) (2 ^ 52 - 1) ≡ a / 4096 = and-max 52 (a / 4096) (omega arith) in
    rw (e, f) at (and-high 12 (a / 4096) (a % 4096) (2 ^ 52 - 1) (omega arith))

pub and-offset : (a : ℕ) → bit_and a 0xFFF ≡ a % 4096
and-offset a =
    let e : a / 4096 * 4096 + a % 4096 ≡ a = omega arith in
    rw e at (and-low 12 (a / 4096) (a % 4096) (omega arith))

-- Flags in the low bits of an aligned address, beside those that are set.
pub or-page : (a f g : ℕ) → a % 4096 ≡ 0 → f < 4096 → g < 4096 → bit_or (a + f) g ≡ a + bit_or f g
or-page a f g h hf hg =
    let e : a / 4096 * 4096 ≡ a = omega arith in rw e at (or-low 12 (a / 4096) f g hf hg)
