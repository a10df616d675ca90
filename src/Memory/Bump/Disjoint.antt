-- ===== src/Memory/Bump/Disjoint.antt =====
-- The blocks of the bump allocator lie in its range and do not overlap.
use ferrugem.Prelude.{
  ℕ, ◌+◌, ◌%◌, ◌^◌, ◌<◌, ◌≤◌, ◌≡◌, ◌⊎◌, inl, inr, Option, none, some, List, [], ◌∷◌, arith,
  Bool-cases, ltb,
}
use ferrugem.Memory.Bump.{BumpAllocator, alloc, page_up}

-- The end leaves room for rounding up to a page.
pub record IsValid (b : BumpAllocator) : Type 0 where
  pub small : b.end + 4096 ≤ 2 ^ 64
  pub begun : b.start ≤ b.current
  pub within : b.current ≤ b.end

page_up_lem :
    (x : ℕ) → x + 4096 ≤ 2 ^ 64 → (page_up x % 4096 ≡ 0) × (x ≤ page_up x) × (page_up x < x + 4096)
unfolding page_up
page_up_lem x h = omega arith

abbrev pub Allocates : ℕ → BumpAllocator → Option ℕ × BumpAllocator → Type 0
Allocates size b (found, b') =
    ((found ≡ none) × (b' ≡ b) × (b.end < page_up b.current + size))
    ⊎ ((a : ℕ) × (found ≡ some a)
        × (a % 4096 ≡ 0)
        × (b.current ≤ a)
        × (a < b.current + 4096)
        × (b' ≡ record b { current = a + size })
        × (a + size ≤ b.end))

-- From a valid allocator, a request fails only when no block of that size fits from the next page
-- on, and then changes nothing; otherwise the block starts at a page less than a page from the
-- current position, ends within the range, and the allocator goes on from its end.
pub alloc-Allocates : (size : ℕ) (b : BumpAllocator) → IsValid b → Allocates size b (alloc size b)
unfolding alloc
alloc-Allocates size b v =
    let (aligned, above, near) = page_up_lem b.current (omega arith) in
    elim (Bool-cases (ltb b.end (page_up b.current + size))) [
      | inl over ↦ inl (ground arith, ground arith, ground arith)
      | inr fits ↦
          inr (page_up b.current, ground arith, aligned, above, near, ground arith, ground arith)
    ]

-- The blocks that a run of requests gets, with their sizes.
pub blocks : List ℕ → BumpAllocator → List (ℕ × ℕ)
blocks [] b = []
blocks (size ∷ sizes) b = elim (alloc size b).0 [
  | none ↦ blocks sizes (alloc size b).1
  | some a ↦ (a, size) ∷ blocks sizes (alloc size b).1
]

-- Blocks one after another, from `low` up to `high`.
abbrev pub Ascending : (low high : ℕ) → List (ℕ × ℕ) → Type 0
Ascending low high [] = Unit {0}
Ascending low high ((a, size) ∷ rest) =
    (low ≤ a) × (a + size ≤ high) × Ascending (a + size) high rest

-- Whatever sizes a valid allocator is asked for, one after another, the blocks that are given lie
-- in order between the current position and the end, so that no two share a byte.
pub blocks-Ascending :
    (sizes : List ℕ) (b : BumpAllocator) → IsValid b → Ascending b.current b.end (blocks sizes b)
unfolding blocks
blocks-Ascending [] b v = tt
blocks-Ascending (size ∷ sizes) b v = elim (alloc-Allocates size b v) [
  | inl (none_found, same, _) ↦ rw (none_found, same, blocks) (blocks-Ascending sizes b v)
  | inr (a, found, _, above, near, after, fits) ↦
      rw (found, after, blocks)
        (
          above,
          fits,
          blocks-Ascending sizes (record b { current = a + size })
              (record { small = v.small; begun = omega (arith, v.begun); within = fits }),
        )
]
