-- ===== src/Memory/Mmap/Largest.antt =====
-- The region that `largest_usable` picks.
use ferrugem.Prelude.{
  ℕ, ◌+◌, ◌-◌, ◌^◌, min, max, ◌<◌, ◌≤◌, ◌≡◌, refl, ◌⊎◌, inl, inr, ◌&&◌, Option, none, some, List,
  [], ◌∷◌, ltb, arith, Bool-cases, Option-cases, subst,
}
use ferrugem.Memory.Mmap.{
  MemoryRegion, RegionKind, usable, reserved, MemoryMap, entries, end, trimmed, consider, is_usable,
  is_larger, largest_from, largest_usable,
}

-- The part of a region from `min_base` on: its first address, and the one past its last, which is
-- not past the greatest address.
abbrev pub part_base : ℕ → MemoryRegion → ℕ
part_base min_base r = max min_base r.base

abbrev pub part_end : MemoryRegion → ℕ
part_end r = min (r.base + r.size) (2 ^ 64 - 1)

abbrev pub if_usable : RegionKind → ℕ → ℕ
if_usable usable n = n
if_usable reserved n = 0

-- The bytes of that part; none of a region that is reserved.
abbrev pub usable_size : ℕ → MemoryRegion → ℕ
usable_size min_base r = if_usable r.kind (part_end r - part_base min_base r)

-- At least as large as every region.
abbrev pub Tops : ℕ → ℕ → List MemoryRegion → Type 0
Tops min_base size [] = Unit {0}
Tops min_base size (r ∷ rest) = (usable_size min_base r ≤ size) × Tops min_base size rest

abbrev pub size_of : Option MemoryRegion → ℕ
size_of none = 0
size_of (some r) = r.size

-- `b` is the part from `min_base` on, not empty, of one of the usable regions.
abbrev pub IsPartOf : ℕ → MemoryRegion → List MemoryRegion → Type 0
IsPartOf min_base b [] = ⊥
IsPartOf min_base b (r ∷ rest) =
    ((r.kind ≡ usable)
      × (b.kind ≡ usable)
      × (b.base ≡ part_base min_base r)
      × (b.base + b.size ≡ part_end r)
      × (0 < b.size))
    ⊎ IsPartOf min_base b rest

abbrev Origin : ℕ → List MemoryRegion → Option MemoryRegion → Option MemoryRegion → Type 0
Origin min_base rs best out =
    (out ≡ best) ⊎ ((b : MemoryRegion) × (out ≡ some b) × IsPartOf min_base b rs)

consider-size :
    (min_base : ℕ) (r : MemoryRegion) (best : Option MemoryRegion)
    → (usable_size min_base r ≤ size_of (consider min_base r best))
      × (size_of best ≤ size_of (consider min_base r best))
unfolding consider
consider-size min_base r none = ground arith
consider-size min_base r (some b) = ground arith

consider-Origin :
    (min_base : ℕ) (r : MemoryRegion) (rest : List MemoryRegion) (best : Option MemoryRegion)
    → Origin min_base (r ∷ rest) best (consider min_base r best)
unfolding consider
consider-Origin min_base r rest best =
    elim (Bool-cases (
      is_usable r.kind
      && ltb (trimmed min_base r).base (end r)
      && is_larger (trimmed min_base r) best)) [
        | inl y ↦ rw y (
            inr (
              trimmed min_base r,
              refl,
              inl (ground arith, refl, ground arith, ground arith, ground arith),
            ))
        | inr n ↦ rw n (inl refl)
      ]

largest_from-Origin :
    (min_base : ℕ) (rs : List MemoryRegion) (best : Option MemoryRegion)
    → Origin min_base rs best (largest_from min_base rs best)
unfolding largest_from
largest_from-Origin min_base [] best = inl refl
largest_from-Origin min_base (r ∷ rest) best =
    elim (largest_from-Origin min_base rest (consider min_base r best)) [
      | inr (b, e, part) ↦ inr (b, e, inr part)
      | inl same ↦ rw same (consider-Origin min_base r rest best)
    ]

largest_from-Tops :
    (min_base : ℕ) (rs : List MemoryRegion) (best : Option MemoryRegion)
    → Tops min_base (size_of (largest_from min_base rs best)) rs
      × (size_of best ≤ size_of (largest_from min_base rs best))
unfolding largest_from
largest_from-Tops min_base [] best = (tt, omega arith)
largest_from-Tops min_base (r ∷ rest) best =
    let (tops, grows) = largest_from-Tops min_base rest (consider min_base r best) in
    let (here, kept) = consider-size min_base r best in
    ((omega (arith, here, grows), tops), omega (arith, kept, grows))

abbrev pub Chosen : ℕ → List MemoryRegion → Option MemoryRegion → Type 0
Chosen min_base rs none = Tops min_base 0 rs
Chosen min_base rs (some b) = IsPartOf min_base b rs × Tops min_base b.size rs

-- `largest_usable` fails only if no usable region has a byte from `min_base` on; otherwise it gives
-- the part from there on of a usable region, and no usable region has a larger such part.
pub largest_usable-Chosen :
    (min_base : ℕ) (m : MemoryMap) → Chosen min_base (entries m) (largest_usable min_base m)
unfolding largest_usable
largest_usable-Chosen min_base m = elim (Option-cases (largest_from min_base (entries m) none)) [
  | inl e ↦ rw e (rw e at (largest_from-Tops min_base (entries m) none).0)
  | inr (b, e) ↦ rw e (elim (largest_from-Origin min_base (entries m) none) [
    | inl missing ↦ cc (missing, e)
    | inr (b', e', part) ↦
        let same : b' ≡ b = cc (e, e') in
        (
          subst (λ x. IsPartOf min_base x (entries m)) same part,
          (rw e at (largest_from-Tops min_base (entries m) none).0),
        )
  ])
]
