-- ===== src/Arch/Paging.antt =====
-- kernel/src/arch/x86_64/paging.rs: the four-level page tables, in physical memory. The tables that
-- the kernel holds in statics stand at addresses that the linker gives; `cr3` is returned as a value.
pub mod Spaces
pub mod Entries
pub mod Walk
pub mod Tree
pub mod Map
pub mod Mapped
use Prim.Native.Nat.{bit_and, bit_or}
use ferrugem.Prelude.{
  ℕ, zero, suc, ◌+◌, ◌-◌, ◌*◌, ◌/◌, ◌%◌, ◌^◌, Bool, true, false, ◌&&◌, not, Option, none, some,
  if◌then◌else◌, leb, ◌==◌,
}
use ferrugem.Bits.{bit_not}
use ferrugem.Arch.{prot_write, prot_user, user_base_va}
use ferrugem.Machine.{
  Ram, Machine, bytes_at, write_list, zero_fill, read_u64, write_u64, alloc_pages, on_ram,
}

abbrev pub page_present : ℕ
page_present = 1

abbrev pub page_writable : ℕ
page_writable = 2

abbrev pub page_user : ℕ
page_user = 4

abbrev pub page_huge : ℕ
page_huge = 128

abbrev pub user_code_va : ℕ
user_code_va = 0x8000001000

abbrev pub user_stack_top : ℕ
user_stack_top = 0x8000010000

abbrev pub user_code_pt_idx : ℕ
user_code_pt_idx = user_code_va / 2 ^ 12 % 512

abbrev pub user_stack_pt_idx : ℕ
user_stack_pt_idx = (user_stack_top - 4096) / 2 ^ 12 % 512

-- `e & !0xFFF`: the table or page that an entry points to.
unfoldable pub target : ℕ → ℕ
unfolding bit_not
target e = bit_and e (bit_not 64 0xFFF)

-- `e & flag != 0`.
unfoldable pub has : (flag e : ℕ) → Bool
has flag e = not (bit_and e flag == 0)

-- The address of an entry, `table.add(idx)`.
abbrev pub entry : (table idx : ℕ) → ℕ
entry table idx = table + idx * 8

-- An entry for a table that was just allocated.
unfoldable pub table_entry : ℕ → ℕ
table_entry new = bit_or (bit_or (bit_or new page_present) page_writable) page_user

abbrev pub pml4_idx : ℕ → ℕ
pml4_idx va = va / 2 ^ 39 % 512

abbrev pub pdpt_idx : ℕ → ℕ
pdpt_idx va = va / 2 ^ 30 % 512

abbrev pub pd_idx : ℕ → ℕ
pd_idx va = va / 2 ^ 21 % 512

abbrev pub pt_idx : ℕ → ℕ
pt_idx va = va / 2 ^ 12 % 512

-- The table one level down, made if it is missing. Below the root a huge page is refused.
unfoldable pub next_table : (below_root : Bool) → (table idx : ℕ) → Machine → Option ℕ × Machine
next_table below_root table idx m =
    let e = read_u64 m.ram (entry table idx) in
    if has page_present e
    then (if below_root && has page_huge e then (none, m) else (some (target e), m))
    else (let (found, m') = alloc_pages 1 m in
        elim found [
          | none ↦ (none, m')
          | some new ↦ (
            some new,
            on_ram (λ r. write_u64 (entry table idx) (table_entry new) (zero_fill new 4096 r)) m',
          )
        ])

unfoldable pub flags_of : ℕ → ℕ
flags_of prot =
    let flags =
      if not (bit_and prot prot_write == 0)
      then bit_or page_present page_writable
      else page_present in
    if not (bit_and prot prot_user == 0) then bit_or flags page_user else flags

-- What `map_user_page` does in the page table that it has found or made.
unfoldable pub set_leaf : (table va pa prot : ℕ) → Machine → Machine
set_leaf table va pa prot =
    on_ram (write_u64 (entry table (pt_idx va)) (bit_or (target pa) (flags_of prot)))

unfoldable pub map_user_page : (pml4 va pa prot : ℕ) → Machine → Bool × Machine
map_user_page pml4 va pa prot m =
    if pml4_idx va == 0
    then (false, m)
    else (let (found, m1) = next_table false pml4 (pml4_idx va) m in
        elim found [
          | none ↦ (false, m1)
          | some pdpt ↦
              let (found', m2) = next_table true pdpt (pdpt_idx va) m1 in
              elim found' [
                | none ↦ (false, m2)
                | some pd ↦
                    let (found'', m3) = next_table true pd (pd_idx va) m2 in
                    elim found'' [
                      | none ↦ (false, m3)
                      | some pt ↦ (true, set_leaf pt va pa prot m3)
                    ]
              ]
        ])

-- The kernel's own tables, which the linker places: the root, one PDPT, and four page directories.
pub record Statics : Type 0 where
  pub pml4 : ℕ
  pub pdpt : ℕ
  pub pd : ℕ

-- Runs `body` for `i`, `i + 1`, and so on, `n` times.
unfoldable pub for_range : (ℕ → Ram → Ram) → (n i : ℕ) → Ram → Ram
for_range body zero i r = r
for_range body (suc n) i r = for_range body n (i + 1) (body i r)

abbrev pub kernel_entry : ℕ → ℕ
kernel_entry table = bit_or (bit_or table page_present) page_writable

-- Returns what is loaded into `cr3`.
unfoldable pub init : Statics → Ram → ℕ × Ram
init s r =
    let r1 = write_u64 (entry s.pml4 0) (kernel_entry s.pdpt) r in
    let r2 = for_range (λ i. write_u64 (entry s.pdpt i) (kernel_entry (s.pd + i * 4096))) 4 0 r1 in
    let r3 =
      for_range
        (λ gib.
          for_range
            (λ mib.
              write_u64 (entry (s.pd + gib * 4096) mib)
                (bit_or (kernel_entry (bit_or (gib * 2 ^ 30) (mib * 2 ^ 21))) page_huge))
            512 0)
        4 0 r2 in
    (s.pml4, r3)

unfoldable pub kernel_page_table_phys : Statics → ℕ
kernel_page_table_phys s = s.pml4

-- `PML4.entries[0] & !(PAGE_USER)`.
abbrev pub shared_entry : Statics → Ram → ℕ
shared_entry s r = bit_and (read_u64 r (entry s.pml4 0)) (bit_not 64 page_user)

unfoldable pub create_empty_process_page_table : Statics → Machine → Option ℕ × Machine
create_empty_process_page_table s m =
    let (found, m') = alloc_pages 1 m in
    elim found [
      | none ↦ (none, m')
      | some pml4 ↦ (
        some pml4,
        on_ram (λ r. let z = zero_fill pml4 4096 r in write_u64 (entry pml4 0) (shared_entry s z) z)
            m',
      )
    ]
