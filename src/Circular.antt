-- ===== src/Circular.antt =====
-- Circular storage: an array of `n` cells with a write index `head` and a read index `tail`, one
-- cell left free to tell full from empty. The byte rings of kernel/src/drivers/ring_buf.rs and the
-- pipes of kernel/src/ipc/mod.rs both work on it.
use native.Mathlib.Nat.{mod-eq_of_lt, mod_self}
use ferrugem.Prelude.{
  ℕ, zero, suc, ◌+◌, ◌-◌, ◌%◌, ◌≤◌, ◌<◌, ◌≡◌, refl, ◌≢◌, ap, ap₂, ◌⊎◌, inl, inr, if◌then◌else◌, leb,
  List, [], ◌∷◌, ◌++◌, arith, dec_lt, length, set, get_or, get_or-set_self, get_or-set_ne,
}

-- The index after `i`.
abbrev pub next : ℕ → ℕ → ℕ
next n i = (i + 1) % n

-- The number of cells from `tail` up to `head`, going round.
abbrev pub distance : ℕ → ℕ → ℕ → ℕ
distance n head tail = if leb tail head then head - tail else head + n - tail

pub next_cases :
    (n i : ℕ) → i < n → ((i + 1 < n) × (next n i ≡ i + 1)) ⊎ ((i + 1 ≡ n) × (next n i ≡ 0))
next_cases n i h = elim (dec_lt (i + 1) n) [
  | yes lt ↦ inl (lt, mod-eq_of_lt lt)
  | no ge ↦ let e : i + 1 ≡ n = omega arith in inr (e, rw e (mod_self n))
]

-- The `k` bytes from index `i` on.
unfoldable pub window : ℕ → List ℕ → ℕ → ℕ → List ℕ
window n buf i zero = []
window n buf i (suc k) = get_or buf i 0 ∷ window n buf (next n i) k

pub length-window : (n : ℕ) (buf : List ℕ) (i k : ℕ) → length (window n buf i k) ≡ k
unfolding window
length-window n buf i zero = refl
length-window n buf i (suc k) = ap suc (length-window n buf (next n i) k)

pub distance-lt : (n h t : ℕ) → h < n → t < n → distance n h t < n
distance-lt n h t hh ht = ground arith

pub eq_of_distance-zero : (n h t : ℕ) → h < n → t < n → distance n h t ≡ 0 → h ≡ t
eq_of_distance-zero n h t hh ht e = ground arith

pub distance-push :
    (n h t : ℕ)
    → h < n
    → t < n
    → next n h ≢ t
    → (distance n (next n h) t ≡ distance n h t + 1) × (distance n h t + 1 < n)
distance-push n h t hh ht ne = ground (arith, next_cases n h hh)

pub distance-full : (n h t : ℕ) → h < n → t < n → next n h ≡ t → distance n h t ≡ n - 1
distance-full n h t hh ht e = ground (arith, next_cases n h hh)

pub distance-pop :
    (n h t : ℕ) → h < n → t < n → h ≢ t → distance n h t ≡ distance n h (next n t) + 1
distance-pop n h t hh ht ne = ground (arith, next_cases n t ht)

pub next-lt : (n i : ℕ) → i < n → next n i < n
next-lt n i h = ground (arith, next_cases n i h)

-- A byte stored `k` cells past `i` extends the window of `k` bytes from `i`.
window-set :
    (n : ℕ) (buf : List ℕ) (x k i h : ℕ)
    → n ≤ length buf
    → i < n
    → h < n
    → suc k < n
    → distance n h i ≡ k
    → window n (set buf h x) i (suc k) ≡ window n buf i k ++ x ∷ []
unfolding window
window-set n buf x zero i h fits hi hh lt e =
    let same : h ≡ i = eq_of_distance-zero n h i hh hi e in
    rw same (ap (λ b. b ∷ []) (get_or-set_self buf i x 0 (omega arith)))
window-set n buf x (suc k) i h fits hi hh lt e =
    ap₂ ◌∷◌ (get_or-set_ne buf h i x 0 (ground arith)) (
      window-set n buf x k (next n i) h fits (next-lt n i hi) hh (omega arith)
        (ground (arith, next_cases n i hi)))

-- `push` where the next write index is not the read index.
pub window-push :
    (n : ℕ) (buf : List ℕ) (x h t : ℕ)
    → n ≤ length buf
    → h < n
    → t < n
    → next n h ≢ t
    → window n (set buf h x) t (distance n (next n h) t) ≡ window n buf t (distance n h t) ++ x ∷ []
window-push n buf x h t fits hh ht ne =
    let (grown, room) = distance-push n h t hh ht ne in
    let e : distance n (next n h) t ≡ suc (distance n h t) = omega (arith, grown) in
    rw e (window-set n buf x (distance n h t) t h fits ht hh (omega (arith, room)) refl)

-- `pop` where the write index is not the read index.
pub window-pop :
    (n : ℕ) (buf : List ℕ) (h t : ℕ)
    → h < n
    → t < n
    → h ≢ t
    → window n buf t (distance n h t)
      ≡ get_or buf t 0 ∷ window n buf (next n t) (distance n h (next n t))
unfolding window
window-pop n buf h t hh ht ne =
    let e : distance n h t ≡ suc (distance n h (next n t)) =
      omega (arith, distance-pop n h t hh ht ne) in
    rw e

pub window-empty : (n : ℕ) (buf : List ℕ) (h t : ℕ) → h ≡ t → window n buf t (distance n h t) ≡ []
unfolding window
window-empty n buf h t e = let z : distance n h t ≡ 0 = ground arith in rw z
