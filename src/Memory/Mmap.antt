-- ===== src/Memory/Mmap.antt =====
-- kernel/src/memory/mmap.rs: the physical memory map.
pub mod Largest
use ferrugem.Prelude.{
  ℕ, ◌+◌, ◌-◌, ◌^◌, Bool, true, false, ◌&&◌, Option, none, some, List, [], ◌∷◌, if◌then◌else◌, ltb,
  leb, min, set, take, replicate,
}

abbrev pub max_regions : ℕ
max_regions = 32

pub data RegionKind : Type 0 where
  usable reserved : RegionKind

pub record MemoryRegion : Type 0 where
  pub base : ℕ
  pub size : ℕ
  pub kind : RegionKind

unfoldable pub zero_region : MemoryRegion
zero_region = record { base = 0; size = 0; kind = reserved }

-- `end`: the sum saturates at `usize::MAX`.
abbrev pub end : MemoryRegion → ℕ
end r = min (r.base + r.size) (2 ^ 64 - 1)

pub record MemoryMap : Type 0 where
  pub regions : List MemoryRegion
  pub count : ℕ

unfoldable pub empty : MemoryMap
unfolding zero_region
empty = record { regions = replicate max_regions zero_region; count = 0 }

unfoldable pub add : (base size : ℕ) → RegionKind → MemoryMap → MemoryMap
add base size kind m =
    if ltb 0 size && ltb m.count max_regions
    then record m {
      regions = set m.regions m.count (record { base = base; size = size; kind = kind });
      count = m.count + 1;
    }
    else m

-- `iter`.
abbrev pub entries : MemoryMap → List MemoryRegion
entries m = take m.count m.regions

abbrev pub is_usable : RegionKind → Bool
is_usable usable = true
is_usable reserved = false

-- The part of a region from `min_base` on.
abbrev pub trimmed : ℕ → MemoryRegion → MemoryRegion
trimmed min_base r =
    let base = if ltb r.base min_base then min_base else r.base in
    record { base = base; size = end r - base; kind = usable }

abbrev pub is_larger : MemoryRegion → Option MemoryRegion → Bool
is_larger r none = true
is_larger r (some b) = ltb b.size r.size

-- One round of the loop of `largest_usable`.
unfoldable pub consider : ℕ → MemoryRegion → Option MemoryRegion → Option MemoryRegion
consider min_base r best =
    let t = trimmed min_base r in
    if is_usable r.kind && ltb t.base (end r) && is_larger t best then some t else best

unfoldable pub largest_from : ℕ → List MemoryRegion → Option MemoryRegion → Option MemoryRegion
largest_from min_base [] best = best
largest_from min_base (r ∷ rest) best = largest_from min_base rest (consider min_base r best)

unfoldable pub largest_usable : ℕ → MemoryMap → Option MemoryRegion
largest_usable min_base m = largest_from min_base (entries m) none
