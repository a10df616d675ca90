-- ===== src/Arch/Paging/Entries.antt =====
-- The bits of page-table entries.
use Prim.Native.Nat.{bit_or}
use ferrugem.Prelude.{ℕ, ◌+◌, ◌%◌, ◌^◌, ◌<◌, ◌≤◌, ◌≡◌, false, arith, ◌==◌, ◌∙◌}
use ferrugem.Bits.{test_bit, and-pow, bit_not}
use ferrugem.Bits.Masks.{and-page, or-page}
use ferrugem.Arch.Paging.{has, target, table_entry, page_present, page_huge}

pub table_entry-add : (new : ℕ) → new % 4096 ≡ 0 → table_entry new ≡ new + 7
unfolding table_entry
table_entry-add new h =
    let e : bit_or (new + 0) 1 ≡ new + 1 = or-page new 0 1 h (omega arith) (omega arith) in
    let e' : bit_or new 1 ≡ new + 1 = let z : new + 0 ≡ new = omega arith in rw z at e in
    rw (
      e',
      or-page new 1 2 h (omega arith) (omega arith),
      or-page new 3 4 h (omega arith) (omega arith),
    )

pub target-add : (a f : ℕ) → a % 4096 ≡ 0 → f < 4096 → a + 4096 ≤ 2 ^ 64 → target (a + f) ≡ a
unfolding target bit_not
target-add a f h hf small = and-page (a + f) (omega arith) ∙ omega arith

pub has-present : (e : ℕ) → has page_present e ≡ (e % 2 == 1)
unfolding has test_bit
has-present e = ground (arith, and-pow e 0)

pub has-huge-add : (a : ℕ) → a % 4096 ≡ 0 → has page_huge (a + 7) ≡ false
unfolding has test_bit
has-huge-add a h = ground (arith, and-pow (a + 7) 7)
