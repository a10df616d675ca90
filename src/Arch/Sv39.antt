-- ===== src/Arch/Sv39.antt =====
-- kernel/src/arch/riscv64/paging.rs: the three-level page tables of RISC-V. The kernel's root table
-- stands at an address that the linker gives; what is written to `satp` is a value. The bit of a
-- present entry is that of x86_64, so the loops over the entries of a table are those of its tables.
use Prim.Native.Nat.{bit_and, bit_or}
use ferrugem.Prelude.{
  ℕ, ◌-◌, ◌*◌, ◌/◌, ◌%◌, ◌^◌, Bool, true, false, not, Option, none, some, List, [], ◌∷◌,
  if◌then◌else◌, ltb, ◌==◌,
}
use ferrugem.Arch.{prot_read, prot_write, prot_exec, prot_user}
use ferrugem.Arch.Paging.{entry, for_range, has}
use ferrugem.Arch.Paging.Spaces.{◌>>=◌, give, run, copy_entries}
use ferrugem.Machine.{
  Ram, Machine, bytes_at, write_list, zero_fill, read_u64, write_u64, alloc_pages,
}

abbrev pub page_v : ℕ
page_v = 1

abbrev pub page_r : ℕ
page_r = 2

abbrev pub page_w : ℕ
page_w = 4

abbrev pub page_x : ℕ
page_x = 8

abbrev pub page_u : ℕ
page_u = 16

abbrev pub page_a : ℕ
page_a = 64

abbrev pub page_d : ℕ
page_d = 128

-- `a | b | ...`.
unfoldable pub ored : List ℕ → ℕ
ored [] = 0
ored (x ∷ xs) = bit_or x (ored xs)

abbrev pub user_code_va : ℕ
user_code_va = 0x100001000

abbrev pub user_stack_top : ℕ
user_stack_top = 0x100010000

abbrev pub user_code_l0_idx : ℕ
user_code_l0_idx = user_code_va / 2 ^ 12 % 512

abbrev pub user_stack_l0_idx : ℕ
user_stack_l0_idx = (user_stack_top - 4096) / 2 ^ 12 % 512

-- The value for `satp`: mode 8 and the number of the root's page.
unfoldable pub switch_address_space : (root_phys : ℕ) → ℕ
switch_address_space root_phys = bit_or (8 * 2 ^ 60) (root_phys / 2 ^ 12)

unfoldable pub kernel_leaf : ℕ → ℕ
kernel_leaf i =
    ored (i * 2 ^ 18 * 2 ^ 10 ∷ page_v ∷ page_r ∷ page_w ∷ page_x ∷ page_a ∷ page_d ∷ [])

unfoldable pub init : (root : ℕ) → Ram → ℕ × Ram
init root r =
    (switch_address_space root, for_range (λ i. write_u64 (entry root i) (kernel_leaf i)) 4 0 r)

unfoldable pub protect_guard_page : (phys : ℕ) → Bool
protect_guard_page phys = false

-- `pa >> 12 << 10`.
abbrev pub ppn_bits : ℕ → ℕ
ppn_bits pa = pa / 2 ^ 12 * 2 ^ 10

-- `(e >> 10) << 12`: the table or page that an entry points to.
unfoldable pub target : ℕ → ℕ
target e = e / 2 ^ 10 * 2 ^ 12 % 2 ^ 64

unfoldable pub table_entry : ℕ → ℕ
table_entry new = bit_or (ppn_bits new) page_v

-- Any of R, W and X marks a leaf.
unfoldable pub is_leaf : ℕ → Bool
is_leaf e = has (ored (page_r ∷ page_w ∷ page_x ∷ [])) e

-- The table one level down, made if it is missing. A huge page is refused.
unfoldable pub next_table : (table idx : ℕ) → Machine → Option ℕ × Machine
next_table table idx m =
    let e = read_u64 m.ram (entry table idx) in
    if has page_v e
    then (if is_leaf e then (none, m) else (some (target e), m))
    else (do
      new ← alloc_pages 1
      done ← run (zero_fill new 4096)
      done ← run (write_u64 (entry table idx) (table_entry new))
      give new)
        m

-- `if prot & bit != 0 { flags |= flag; }`.
abbrev pub add_flag : (prot bit flag flags : ℕ) → ℕ
add_flag prot bit flag flags = if not (bit_and prot bit == 0) then bit_or flags flag else flags

unfoldable pub flags_of : ℕ → ℕ
flags_of prot = add_flag prot prot_user page_u (
    add_flag prot prot_exec page_x (
      add_flag prot prot_write page_w
        (add_flag prot prot_read page_r (ored (page_v ∷ page_a ∷ page_d ∷ [])))))

unfoldable pub map_user_page : (root va pa prot : ℕ) → Machine → Bool × Machine
map_user_page root va pa prot m =
    let vpn2 = va / 2 ^ 30 % 512 in
    let vpn1 = va / 2 ^ 21 % 512 in
    let vpn0 = va / 2 ^ 12 % 512 in
    let leaf = bit_or (ppn_bits pa) (flags_of prot) in
    let (mapped, m') =
      (do l1 ← next_table root vpn2; l0 ← next_table l1 vpn1; run (write_u64 (entry l0 vpn0) leaf))
        m in
    if ltb vpn2 4 then (false, m) else (elim mapped [ none ↦ false | some done ↦ true ], m')

-- The four entries of the kernel's root, copied to the root of a process.
unfoldable pub share_kernel : (src dst : ℕ) → Ram → Ram
share_kernel src dst r =
    for_range (λ i r'. write_u64 (entry dst i) (read_u64 r' (entry src i)) r') 4 0 r

unfoldable pub create_empty_process_page_table : (kernel_root : ℕ) → Machine → Option ℕ × Machine
create_empty_process_page_table kernel_root = do
  root ← alloc_pages 1
  done ← run (zero_fill root 4096)
  done ← run (share_kernel kernel_root root)
  give root

unfoldable pub code_leaf : ℕ → ℕ
code_leaf code_phys =
    ored (ppn_bits code_phys ∷ page_v ∷ page_r ∷ page_w ∷ page_x ∷ page_u ∷ page_a ∷ page_d ∷ [])

unfoldable pub stack_leaf : ℕ → ℕ
stack_leaf stack_phys =
    ored (ppn_bits stack_phys ∷ page_v ∷ page_r ∷ page_w ∷ page_u ∷ page_a ∷ page_d ∷ [])

unfoldable pub create_process_page_table :
    (kernel_root code_phys stack_phys : ℕ) → Machine → Option ℕ × Machine
create_process_page_table kernel_root code_phys stack_phys = do
  root ← alloc_pages 1
  l1 ← alloc_pages 1
  l0 ← alloc_pages 1
  done ← run (zero_fill root 4096)
  done ← run (zero_fill l1 4096)
  done ← run (zero_fill l0 4096)
  done ← run (share_kernel kernel_root root)
  done ← run (write_u64 (entry root 4) (table_entry l1))
  done ← run (write_u64 (entry l1 0) (table_entry l0))
  done ← run (write_u64 (entry l0 user_code_l0_idx) (code_leaf code_phys))
  done ← run (write_u64 (entry l0 user_stack_l0_idx) (stack_leaf stack_phys))
  give root

-- A page: a fresh frame with the same bytes, and the low ten bits of its entry.
unfoldable pub copy_page : ℕ → Machine → Option ℕ × Machine
copy_page e = do
  new ← alloc_pages 1
  done ← run (λ r. write_list new (bytes_at r (target e) 4096) r)
  give (bit_or (ppn_bits new) (bit_and e 0x3FF))

-- A table one level down, whose entries `copy_entry` copies. A huge page stays shared.
unfoldable pub copy_table : (ℕ → Machine → Option ℕ × Machine) → ℕ → Machine → Option ℕ × Machine
copy_table copy_entry e = if is_leaf e then give e else (do
  new ← alloc_pages 1
  done ← run (zero_fill new 4096)
  done ← copy_entries copy_entry (target e) new 512 0
  give (table_entry new))

unfoldable pub clone_user_page_table : ℕ → Machine → Option ℕ × Machine
clone_user_page_table src = do
  new ← alloc_pages 1
  done ← run (zero_fill new 4096)
  done ← run (share_kernel src new)
  done ← copy_entries (copy_table (copy_table copy_page)) src new 508 4
  give new
