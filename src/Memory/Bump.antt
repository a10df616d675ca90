-- ===== src/Memory/Bump.antt =====
-- kernel/src/memory/bump.rs: the boot-time allocator, which only moves up. Addresses are `usize`.
pub mod Disjoint
use ferrugem.Prelude.{ℕ, ◌+◌, ◌-◌, ◌*◌, ◌/◌, ◌%◌, ◌^◌, Option, none, some, if◌then◌else◌, ltb, leb}

pub record BumpAllocator : Type 0 where
  pub start : ℕ
  pub end : ℕ
  pub current : ℕ

unfoldable pub new : (start end : ℕ) → BumpAllocator
new start end = record { start = start; end = end; current = start }

unfoldable pub reset : BumpAllocator → BumpAllocator
reset b = record b { current = b.start }

-- `(x + 4095) & !4095`; the sum wraps, and clearing the low 12 bits is rounding down to a page.
unfoldable pub page_up : ℕ → ℕ
page_up x = (x + 4095) % 2 ^ 64 / 4096 * 4096

-- `checked_add` fails where the sum does not fit a `usize`.
unfoldable pub alloc : ℕ → BumpAllocator → Option ℕ × BumpAllocator
alloc size b =
    let aligned = page_up b.current in
    let next = aligned + size in
    if leb (2 ^ 64) next
    then (none, b)
    else if ltb b.end next
    then (none, b)
    else (some aligned, record b { current = next })

unfoldable pub used : BumpAllocator → ℕ
used b = b.current - b.start
