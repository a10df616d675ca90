-- ===== src/Arch.antt =====
-- kernel/src/arch: the constants that the architectures share, and the page tables of each.
pub mod Paging
pub mod Sv39
pub mod Aarch64
mod Tests
use ferrugem.Prelude.{ℕ, ◌+◌}

abbrev pub prot_read : ℕ
prot_read = 1

abbrev pub prot_write : ℕ
prot_write = 2

abbrev pub prot_exec : ℕ
prot_exec = 4

abbrev pub prot_user : ℕ
prot_user = 8

-- On x86_64.
abbrev pub user_base_va : ℕ
user_base_va = 0x8000000000

abbrev pub user_elf_stack_top : ℕ
user_elf_stack_top = user_base_va + 0x10000000
