-- ===== src/Bytes.antt =====
-- Integers as bytes: `to_le_bytes`, `from_le_bytes`, `to_be_bytes` and `from_be_bytes`.
use ferrugem.Prelude.{
  ℕ, zero, suc, ◌+◌, ◌-◌, ◌*◌, ◌/◌, ◌%◌, ◌^◌, ◌<◌, ◌≡◌, refl, arith, List, [], ◌∷◌, ◌++◌, length,
  take, drop, get_or, ap, ◌∙◌, ◌≤◌, length-take, length-drop,
}
use native.Mathlib.Nat.{pow-succ'}
use mathlib.Core.List.{append_assoc}
use ferrugem.Prelude.{sym, length-append, take-append_self}

abbrev pub AllBytes : List ℕ → Type 0
AllBytes [] = Unit
AllBytes (b ∷ bs) = (b < 256) × AllBytes bs

-- `d[from..to]`, for a range inside of `d`.
abbrev pub slice : (from to : ℕ) → List ℕ → List ℕ
slice from to d = take (to - from) (drop from d)

-- `dst[offset..offset + src.len()].copy_from_slice(src)`, within `dst`.
unfoldable pub copy_at : (offset : ℕ) → (src dst : List ℕ) → List ℕ
copy_at offset src dst = take offset dst ++ (src ++ drop (offset + length src) dst)

-- The `n` bytes of a word, the lowest first.
unfoldable pub le_bytes : (n v : ℕ) → List ℕ
le_bytes zero v = []
le_bytes (suc n) v = v % 256 ∷ le_bytes n (v / 256)

unfoldable pub from_le_bytes : List ℕ → ℕ
from_le_bytes [] = 0
from_le_bytes (b ∷ bs) = b + from_le_bytes bs * 256

-- A `u16`, the high byte first.
abbrev pub be_bytes : ℕ → List ℕ
be_bytes v = v / 256 % 256 ∷ v % 256 ∷ []

pub from_le_bytes-le_bytes : (n v : ℕ) → v < 256 ^ n → from_le_bytes (le_bytes n v) ≡ v
unfolding le_bytes from_le_bytes
from_le_bytes-le_bytes zero v h = omega arith
from_le_bytes-le_bytes (suc n) v h =
    omega
      (arith, pow-succ' 256 n, from_le_bytes-le_bytes n (v / 256) (omega (arith, pow-succ' 256 n)))

pub length-le_bytes : (n v : ℕ) → length (le_bytes n v) ≡ n
unfolding le_bytes
length-le_bytes zero v = refl
length-le_bytes (suc n) v = omega (arith, length-le_bytes n (v / 256))

get_or-take : (n : ℕ) (xs : List ℕ) (i v : ℕ) → i < n → get_or (take n xs) i v ≡ get_or xs i v
get_or-take zero xs i v h = elim h [ ]
get_or-take (suc n) [] i v h = refl
get_or-take (suc n) (x ∷ xs) zero v h = refl
get_or-take (suc n) (x ∷ xs) (suc i) v h = get_or-take n xs i v (omega arith)

get_or-drop : (n : ℕ) (xs : List ℕ) (i v : ℕ) → get_or (drop n xs) i v ≡ get_or xs (n + i) v
get_or-drop zero xs i v = ap (λ (k : ℕ). get_or xs k v) (omega arith)
get_or-drop (suc n) [] i v = refl
get_or-drop (suc n) (x ∷ xs) i v =
    let e : suc n + i ≡ suc (n + i) = omega arith in rw e (get_or-drop n xs i v)

pub get_or-slice :
    (from to : ℕ) (d : List ℕ) (i v : ℕ)
    → i < to - from
    → get_or (slice from to d) i v ≡ get_or d (from + i) v
get_or-slice from to d i v h = get_or-take (to - from) (drop from d) i v h ∙ get_or-drop from d i v

pub length-slice : (from to : ℕ) (d : List ℕ) → to ≤ length d → length (slice from to d) ≡ to - from
length-slice from to d h = omega (arith, length-take (to - from) (drop from d), length-drop from d)

-- A write behind a first part is a write into the rest.
pub copy_at-skip :
    (a src rest : List ℕ) (o : ℕ) → copy_at (length a + o) src (a ++ rest) ≡ a ++ copy_at o src rest
unfolding copy_at
copy_at-skip [] src rest o = let e : 0 + o ≡ o = omega arith in rw e
copy_at-skip (x ∷ a) src rest o =
    let e : suc (length a) + o ≡ suc (length a + o) = omega arith in
    let f : suc (length a + o) + length src ≡ suc (length a + o + length src) = omega arith in
    rw (e, f) (ap (◌∷◌ x) (copy_at-skip a src rest o))

pub copy_at-front : (src rest : List ℕ) → copy_at 0 src rest ≡ src ++ drop (length src) rest
unfolding copy_at
copy_at-front src rest = let e : 0 + length src ≡ length src = omega arith in rw e

-- The bytes up to the end of what was written behind a first part.
pub take-copy_at :
    (a src rest : List ℕ)
    → take (length a + length src) (copy_at (length a) src (a ++ rest)) ≡ a ++ src
take-copy_at a src rest =
    let e : length a + 0 ≡ length a = omega arith in
    let n : length a + length src ≡ length (a ++ src) = sym (length-append a src) in
    rw n (
      ap (take (length (a ++ src))) (
        ap (λ (k : ℕ). copy_at k src (a ++ rest)) (sym e)
        ∙ copy_at-skip a src rest 0
        ∙ ap (◌++◌ a) (copy_at-front src rest)
        ∙ sym (append_assoc a src (drop (length src) rest)))
      ∙ take-append_self (a ++ src) (drop (length src) rest))

-- The elements of a list of known length.
pub four_of : (xs : List ℕ) → length xs ≡ 4 → (a b c d : ℕ) × (xs ≡ a ∷ b ∷ c ∷ d ∷ [])
four_of (a ∷ b ∷ c ∷ d ∷ []) h = (a, b, c, d, refl)
four_of [] h = absurd (omega arith)
four_of (a ∷ []) h = absurd (omega arith)
four_of (a ∷ b ∷ []) h = absurd (omega arith)
four_of (a ∷ b ∷ c ∷ []) h = absurd (omega arith)
four_of (a ∷ b ∷ c ∷ d ∷ e ∷ xs) h = absurd (omega arith)

pub six_of : (xs : List ℕ) → length xs ≡ 6 → (a b c d e f : ℕ) × (xs ≡ a ∷ b ∷ c ∷ d ∷ e ∷ f ∷ [])
six_of [] h = absurd (omega arith)
six_of (a ∷ []) h = absurd (omega arith)
six_of (a ∷ b ∷ xs) h =
    let (c, d, e, f, same) = four_of xs (omega arith) in
    (a, b, c, d, e, f, ap (λ (t : List ℕ). a ∷ b ∷ t) same)

pub take_both : (a b rest : List ℕ) → take (length a + length b) (a ++ (b ++ rest)) ≡ a ++ b
take_both a b rest =
    let n : length a + length b ≡ length (a ++ b) = sym (length-append a b) in
    rw n
      (ap (take (length (a ++ b))) (sym (append_assoc a b rest)) ∙ take-append_self (a ++ b) rest)
