-- ===== src/Bits.antt =====
-- The bit operations `&`, `|`, `!` and `1 << b` of the source, read one bit at a time.
mod Digits
pub mod Masks
use Prim.Native.Nat.{bit_and, bit_or, bit_and-bitwise}
use native.Mathlib.Nat.{pow-succ', one-le-pow}
use ferrugem.Prelude.{
  ℕ, zero, suc, ◌+◌, ◌-◌, ◌*◌, ◌/◌, ◌%◌, ◌^◌, ◌<◌, ◌≤◌, ◌≡◌, ◌↔◌, refl, sym, ◌∙◌, Bool, true, false,
  ◌&&◌, ◌||◌, not, ◌==◌, arith,
}
use Digits.{and_step, or_step}

-- Bit `i` of a number.
unfoldable pub test_bit : ℕ → ℕ → Bool
test_bit a zero = a % 2 == 1
test_bit a (suc i) = test_bit (a / 2) i

-- `!a` on a `w`-bit word.
unfoldable pub bit_not : ℕ → ℕ → ℕ
bit_not w a = 2 ^ w - 1 - a

pub test_bit-and : (a b i : ℕ) → test_bit (bit_and a b) i ≡ (test_bit a i && test_bit b i)
unfolding test_bit
test_bit-and a b zero = ground (arith, and_step a b)
test_bit-and a b (suc i) =
    let e : bit_and a b / 2 ≡ bit_and (a / 2) (b / 2) = omega (arith, and_step a b) in
    rw e (test_bit-and (a / 2) (b / 2) i)

pub test_bit-or : (a b i : ℕ) → test_bit (bit_or a b) i ≡ (test_bit a i || test_bit b i)
unfolding test_bit
test_bit-or a b zero = ground (arith, or_step a b)
test_bit-or a b (suc i) =
    let e : bit_or a b / 2 ≡ bit_or (a / 2) (b / 2) = omega (arith, or_step a b) in
    rw e (test_bit-or (a / 2) (b / 2) i)

-- `!a` flips every bit of the word.
pub test_bit-bit_not :
    (w a i : ℕ) → a < 2 ^ w → i < w → test_bit (bit_not w a) i ≡ not (test_bit a i)
unfolding test_bit bit_not
test_bit-bit_not zero a i h lt = elim lt [ ]
test_bit-bit_not (suc w) a zero h lt = ground (arith, pow-succ' 2 w)
test_bit-bit_not (suc w) a (suc i) h lt =
    let e : (2 ^ suc w - 1 - a) / 2 ≡ 2 ^ w - 1 - a / 2 = omega (arith, pow-succ' 2 w) in
    rw e (test_bit-bit_not w (a / 2) i (omega (arith, pow-succ' 2 w)) (omega arith))

pub test_bit-zero : (i : ℕ) → test_bit 0 i ≡ false
unfolding test_bit
test_bit-zero zero = refl
test_bit-zero (suc i) = test_bit-zero i

-- `1 << b` has bit `b` and no other.
pub test_bit-pow : (b i : ℕ) → test_bit (2 ^ b) i ≡ (b == i)
unfolding test_bit
test_bit-pow zero zero = refl
test_bit-pow zero (suc i) = ground (arith, test_bit-zero i)
test_bit-pow (suc b) zero = ground (arith, pow-succ' 2 b)
test_bit-pow (suc b) (suc i) =
    let e : 2 ^ suc b / 2 ≡ 2 ^ b = omega (arith, pow-succ' 2 b) in
    rw e (test_bit-pow b i ∙ ground arith)

-- `u64::MAX` has every bit of the word.
pub test_bit-max : (w i : ℕ) → i < w → test_bit (2 ^ w - 1) i ≡ true
unfolding test_bit
test_bit-max zero i lt = elim lt [ ]
test_bit-max (suc w) zero lt = ground (arith, pow-succ' 2 w, one-le-pow w 2)
test_bit-max (suc w) (suc i) lt =
    let e : (2 ^ suc w - 1) / 2 ≡ 2 ^ w - 1 = omega (arith, pow-succ' 2 w) in
    rw e (test_bit-max w i (omega arith))

and-zero_fuel : (n a : ℕ) → a ≤ n → bit_and a 0 ≡ 0
and-zero_fuel n zero h = refl
and-zero_fuel zero (suc a) h = absurd (omega arith)
and-zero_fuel (suc n) (suc a) h =
    omega (arith, and_step (suc a) 0, and-zero_fuel n (suc a / 2) (omega arith))

pub and-zero : (a : ℕ) → bit_and a 0 ≡ 0
and-zero a = and-zero_fuel a a (omega arith)

-- `a & (1 << b)` is zero exactly when bit `b` is clear.
pub and-pow : (a b : ℕ) → (bit_and a (2 ^ b) == 0) ≡ not (test_bit a b)
unfolding test_bit
and-pow a zero = ground (arith, and_step a 1, and-zero (a / 2))
and-pow a (suc b) =
    let e : bit_and a (2 ^ suc b) ≡ bit_and (a / 2) (2 ^ b) * 2 =
      omega (arith, and_step a (2 ^ suc b), pow-succ' 2 b, half) in
    ground (arith, e, and-pow (a / 2) b)
  where
    half : bit_and (a / 2) (2 ^ suc b / 2) ≡ bit_and (a / 2) (2 ^ b)
    half = let f : 2 ^ suc b / 2 ≡ 2 ^ b = omega (arith, pow-succ' 2 b) in rw f

-- The bits of a word determine it.
pub bits_ext :
    (w a b : ℕ) → a < 2 ^ w → b < 2 ^ w → ((i : ℕ) → i < w → test_bit a i ≡ test_bit b i) → a ≡ b
unfolding test_bit
bits_ext zero a b ha hb h = omega arith
bits_ext (suc w) a b ha hb h = ground (
  arith,
  h 0 (omega arith),
  bits_ext w (a / 2) (b / 2) (omega (arith, pow-succ' 2 w)) (omega (arith, pow-succ' 2 w))
      (λ i lt. h (suc i) (omega arith)),
)

-- A word with every bit set is `u64::MAX`, and the other way round.
pub all_set-iff_max :
    (w a : ℕ) → a < 2 ^ w → (a ≡ 2 ^ w - 1) ↔ ((i : ℕ) → i < w → test_bit a i ≡ true)
all_set-iff_max w a h = (
  λ e i lt. rw e (test_bit-max w i lt),
  λ all.
      bits_ext w a (2 ^ w - 1) h (omega (arith, one-le-pow w 2))
        (λ i lt. all i lt ∙ sym (test_bit-max w i lt)),
)

pub and-lt : (w a b : ℕ) → a < 2 ^ w → bit_and a b < 2 ^ w
and-lt zero a b h = let e : a ≡ 0 = omega arith in rw e (omega (arith, bit_and-bitwise 0 b))
and-lt (suc w) a b h =
    omega
      (arith, and_step a b, pow-succ' 2 w, and-lt w (a / 2) (b / 2) (omega (arith, pow-succ' 2 w)))

pub or-lt : (w a b : ℕ) → a < 2 ^ w → b < 2 ^ w → bit_or a b < 2 ^ w
or-lt zero a b h g =
    let e : a ≡ 0 = omega arith in let f : b ≡ 0 = omega arith in rw (e, f) (omega arith)
or-lt (suc w) a b h g = omega (
  arith,
  or_step a b,
  pow-succ' 2 w,
  or-lt w (a / 2) (b / 2) (omega (arith, pow-succ' 2 w)) (omega (arith, pow-succ' 2 w)),
)
