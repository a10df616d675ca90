-- ===== src/Arch/Paging/Spaces.antt =====
-- kernel/src/arch/x86_64/paging.rs: whole address spaces, made with two pages mapped, copied for a
-- fork, and the guard pages of kernel stacks. A reload of `cr3` changes no memory and is left out.
use Prim.Native.Nat.{bit_and, bit_or}
use ferrugem.Prelude.{
  ℕ, zero, suc, ◌+◌, ◌*◌, ◌/◌, ◌%◌, ◌^◌, Bool, true, false, ◌&&◌, Option, none, some, if◌then◌else◌,
  leb,
}
use ferrugem.Machine.{
  Ram, Machine, bytes_at, write_list, zero_fill, read_u64, write_u64, alloc_pages, on_ram,
}
use ferrugem.Arch.Paging.{
  Statics, entry, has, target, table_entry, shared_entry, for_range, kernel_entry, page_present,
  page_huge, user_code_pt_idx, user_stack_pt_idx,
}

infixl 5 ◌>>=◌
abbrev pub ◌>>=◌ {ℓ κ} :
    {A : Type ℓ} {B : Type κ}
    → (Machine → Option A × Machine)
    → (A → Machine → Option B × Machine)
    → Machine
    → Option B × Machine
◌>>=◌ x f m = let (found, m') = x m in elim found [ none ↦ (none, m') | some a ↦ f a m' ]

abbrev pub give {ℓ} : {A : Type ℓ} → A → Machine → Option A × Machine
give a m = (some a, m)

abbrev pub run : (Ram → Ram) → Machine → Option (Unit {0}) × Machine
run f m = (some tt, on_ram f m)

unfoldable pub create_process_page_table :
    Statics → (code_phys stack_phys : ℕ) → Machine → Option ℕ × Machine
create_process_page_table s code_phys stack_phys = do
  pml4 ← alloc_pages 1
  pdpt ← alloc_pages 1
  pd ← alloc_pages 1
  pt ← alloc_pages 1
  done ← run (zero_fill pml4 4096)
  done ← run (zero_fill pdpt 4096)
  done ← run (zero_fill pd 4096)
  done ← run (zero_fill pt 4096)
  done ← run (λ r. write_u64 (entry pml4 0) (shared_entry s r) r)
  done ← run (write_u64 (entry pml4 1) (table_entry pdpt))
  done ← run (write_u64 (entry pdpt 0) (table_entry pd))
  done ← run (write_u64 (entry pd 0) (table_entry pt))
  done ← run (write_u64 (entry pt user_code_pt_idx) (table_entry code_phys))
  done ← run (write_u64 (entry pt user_stack_pt_idx) (table_entry stack_phys))
  give pml4

-- `(new & !0xFFF) | (e & 0xFFF)`: the copy's entry, with the flags of the original.
unfoldable pub same_flags : (e new : ℕ) → ℕ
same_flags e new = bit_or (target new) (bit_and e 0xFFF)

-- The loop over one table: entries that are not present are skipped, the others are copied by
-- `copy_entry`, which gives the new entry. `n` entries are left, from `i` on.
unfoldable pub copy_entries :
    (ℕ → Machine → Option ℕ × Machine) → (src dst n i : ℕ) → Machine → Option (Unit {0}) × Machine
copy_entries copy_entry src dst zero i m = (some tt, m)
copy_entries copy_entry src dst (suc n) i m =
    let e = read_u64 m.ram (entry src i) in
    let rest = copy_entries copy_entry src dst n (i + 1) in
    if has page_present e
    then (copy_entry e >>= λ v. run (write_u64 (entry dst i) v) >>= λ _. rest) m
    else rest m

-- A page: a fresh frame with the same bytes.
unfoldable pub copy_page : ℕ → Machine → Option ℕ × Machine
copy_page e = do
  new ← alloc_pages 1
  done ← run (λ r. write_list new (bytes_at r (target e) 4096) r)
  give (same_flags e new)

-- A table one level down, whose entries `copy_entry` copies. A huge page stays shared.
unfoldable pub copy_table :
    (may_be_huge : Bool) → (ℕ → Machine → Option ℕ × Machine) → ℕ → Machine → Option ℕ × Machine
copy_table may_be_huge copy_entry e = if may_be_huge && has page_huge e then give e else (do
  new ← alloc_pages 1
  done ← run (zero_fill new 4096)
  done ← copy_entries copy_entry (target e) new 512 0
  give (same_flags e new))

unfoldable pub clone_user_page_table : ℕ → Machine → Option ℕ × Machine
clone_user_page_table src_pml4 = do
  new ← alloc_pages 1
  done ← run (zero_fill new 4096)
  done ← run (λ r. write_u64 (entry new 0) (read_u64 r (entry src_pml4 0)) r)
  done ←
      copy_entries (copy_table false (copy_table true (copy_table true copy_page))) src_pml4 new 511
        1
  give new

-- The page at `phys` is not present in the kernel's tables afterwards. A huge page of 2 MiB is split.
unfoldable pub protect_guard_page : Statics → (phys : ℕ) → Machine → Bool × Machine
protect_guard_page s phys m =
    let pd_entry = entry (s.pd + phys / 2 ^ 30 % 4 * 4096) (phys / 2 ^ 21 % 512) in
    let clear =
      on_ram (λ r. write_u64 (entry (target (read_u64 r pd_entry)) (phys / 2 ^ 12 % 512)) 0 r) in
    if leb (4 * 1024 * 1024 * 1024) phys
    then (false, m)
    else if has page_huge (read_u64 m.ram pd_entry)
    then (let (found, m') = alloc_pages 1 m in
        elim found [
          | none ↦ (false, m')
          | some pt ↦
              let split = on_ram (λ r. write_u64 pd_entry (kernel_entry pt) (
                for_range
                  (λ i. write_u64 (entry pt i) (kernel_entry (phys / 2 ^ 21 * 2 ^ 21 + i * 4096)))
                  512 0 r)) in
              (true, clear (split m'))
        ])
    else (true, clear m)
