-- ===== src/Scheduler/Stack.antt =====
-- kernel/src/scheduler/mod.rs: the first stack of a program, with its arguments, its environment and
-- the auxiliary vector. The seed for AT_RANDOM is an argument: it comes from a processor register.
pub mod Words
pub mod Entries
pub mod Initial
mod Tests
use Prim.Native.Nat.{bit_or, bit_xor}
use ferrugem.Prelude.{
  ℕ, zero, suc, ◌+◌, ◌-◌, ◌*◌, ◌/◌, ◌%◌, ◌^◌, min, Bool, true, false, Option, none, some, List, [],
  ◌∷◌, ◌++◌, if◌then◌else◌, ltb, ◌==◌, length, take,
}
use ferrugem.Arch.{prot_read, prot_write, prot_user}
use ferrugem.Arch.Paging.{map_user_page}
use ferrugem.Machine.{Ram, Machine, read_u64, write_u64, write_list, zero_fill, alloc_pages, on_ram}

abbrev pub user_stack_pages : ℕ
user_stack_pages = 8

abbrev pub user_stack_size : ℕ
user_stack_size = user_stack_pages * 4096

abbrev pub max_exec_vec : ℕ
max_exec_vec = 64

abbrev pub max_arg_len : ℕ
max_arg_len = 4096

-- The bytes from `ptr` up to a NUL within the next `n`.
unfoldable pub cstr_from : Ram → (n ptr : ℕ) → Option (List ℕ)
cstr_from r zero ptr = none
cstr_from r (suc n) ptr =
    let rest = elim (cstr_from r n (ptr + 1)) as (λ _. Option (List ℕ)) [
      | none ↦ none
      | some s ↦ some (r ptr ∷ s)
    ] in
    if r ptr == 0 then some [] else rest

unfoldable pub user_cstr : Ram → (ptr max_len : ℕ) → Option (List ℕ)
user_cstr r ptr max_len = if ptr == 0 then none else cstr_from r max_len ptr

-- The strings that a vector of at most `n` pointers names, up to a null pointer or a bad string.
unfoldable pub cstrs_from : Ram → (n ptrs : ℕ) → List (List ℕ)
cstrs_from r zero ptrs = []
cstrs_from r (suc n) ptrs =
    let rest = cstrs_from r n (ptrs + 8) in
    let found = elim (user_cstr r (read_u64 r ptrs) max_arg_len) as (λ _. List (List ℕ)) [
      | none ↦ []
      | some s ↦ s ∷ rest
    ] in
    if read_u64 r ptrs == 0 then [] else found

unfoldable pub user_cstr_array : Ram → (ptr max_count : ℕ) → List (List ℕ)
user_cstr_array r ptr max_count = if ptr == 0 then [] else cstrs_from r max_count ptr

-- Copies strings downward from the offset `off`, each with a NUL and from a multiple of 8 on. Returns
-- their addresses and the last offset, or `none` where the next one does not fit.
unfoldable pub push_strings :
    (phys va : ℕ) → List (List ℕ) → (off : ℕ) → Ram → Option (List ℕ × ℕ) × Ram
push_strings phys va [] off r = (some ([], off), r)
push_strings phys va (s ∷ strings) off r =
    let below = (off - (length s + 1)) / 8 * 8 in
    let written = write_list (phys + below + length s) (0 ∷ []) (write_list (phys + below) s r) in
    let (rest, r') = push_strings phys va strings below written in
    let result = elim rest as (λ _. Option (List ℕ × ℕ)) [
      | none ↦ none
      | some (vas, last) ↦ some ((va + below) ∷ vas, last)
    ] in
    if ltb off (length s + 1) then (none, r) else (result, r')

-- `w64` for each word, from the address `a` on.
unfoldable pub write_words : (a : ℕ) → List ℕ → Ram → Ram
write_words a [] r = r
write_words a (w ∷ ws) r = write_words (a + 8) ws (write_u64 a w r)

abbrev pub auxv : (phdr_va phentsize phnum rand_va : ℕ) → List ℕ
auxv phdr_va phentsize phnum rand_va =
    3 ∷ phdr_va ∷ 4 ∷ phentsize ∷ 5 ∷ phnum ∷ 6 ∷ 4096 ∷ 11 ∷ 0 ∷ 12 ∷ 0 ∷ 13 ∷ 0 ∷ 14 ∷ 0 ∷ 23 ∷ 0
    ∷ 25 ∷ rand_va ∷ 0 ∷ 0 ∷ []

-- The words at the top of the stack: argc, argv, NULL, envp, NULL, auxv.
abbrev pub table : (argv_va envp_va aux : List ℕ) → List ℕ
table argv_va envp_va aux = length argv_va ∷ argv_va ++ (0 ∷ envp_va ++ (0 ∷ aux))

-- The loop over envp, once that over argv is done.
unfoldable pub both_pushed : List ℕ → Option (List ℕ × ℕ) × Ram → Option (List ℕ × List ℕ × ℕ) × Ram
both_pushed argv_va (none, r) = (none, r)
both_pushed argv_va (some (envp_va, off), r) = (some (argv_va, envp_va, off), r)

unfoldable pub push_envp :
    (phys va : ℕ) → List (List ℕ) → Option (List ℕ × ℕ) × Ram → Option (List ℕ × List ℕ × ℕ) × Ram
push_envp phys va envp (none, r) = (none, r)
push_envp phys va envp (some (argv_va, off), r) =
    both_pushed argv_va (push_strings phys va (take max_exec_vec envp) off r)

-- The string area: the seed at the very top, and the strings below it.
unfoldable pub push_all :
    (seed phys size va : ℕ) → (argv envp : List (List ℕ)) → Ram → Option (List ℕ × List ℕ × ℕ) × Ram
push_all seed phys size va argv envp r =
    let seeded =
      write_u64 (phys + (size - 16) + 8) (bit_xor seed 0xDEADBEEFCAFE1234)
        (write_u64 (phys + (size - 16)) seed r) in
    push_envp phys va envp (push_strings phys va (take max_exec_vec argv) (size - 16) seeded)

-- The table's size: 8 bytes for argc, the two vectors with their NULLs, and 176 for auxv.
abbrev pub table_size : (argc envc : ℕ) → ℕ
table_size argc envc = 8 + (argc + 1) * 8 + (envc + 1) * 8 + 176

-- The table below the strings. Returns the address of argc.
unfoldable pub put_table :
    (phys size va phdr_va phnum phentsize : ℕ) → Option (List ℕ × List ℕ × ℕ) × Ram → Option ℕ × Ram
put_table phys size va phdr_va phnum phentsize (none, r) = (none, r)
put_table phys size va phdr_va phnum phentsize (some (argv_va, envp_va, off), r) =
    let need = table_size (length argv_va) (length envp_va) in
    let rsp_off = (off - need) / 16 * 16 in
    let words = table argv_va envp_va (auxv phdr_va phentsize phnum (va + (size - 16))) in
    if ltb off need then (none, r) else (some (va + rsp_off), write_words (phys + rsp_off) words r)

abbrev pub real_argv : List ℕ → List (List ℕ) → List (List ℕ)
real_argv argv0 argv = if length argv == 0 then argv0 ∷ [] else argv

unfoldable pub setup_abi_stack :
    (seed region_phys region_size stack_top_va : ℕ)
    → (argv0 : List ℕ) → (argv envp : List (List ℕ)) → (phdr_va phnum phentsize : ℕ) → Ram
    → Option ℕ × Ram
setup_abi_stack seed region_phys region_size stack_top_va argv0 argv envp phdr_va phnum phentsize
      r =
    let region_va = stack_top_va - region_size in
    put_table region_phys region_size region_va phdr_va phnum phentsize
      (push_all seed region_phys region_size region_va (real_argv argv0 argv) envp r)

-- `n` pages of the region are still to be mapped, from page `i` on.
unfoldable pub map_stack_pages : (pt va phys n i : ℕ) → Machine → Bool × Machine
map_stack_pages pt va phys zero i m = (true, m)
map_stack_pages pt va phys (suc n) i m =
    let (mapped, m') =
      map_user_page pt (va + i * 4096) (phys + i * 4096)
        (bit_or (bit_or prot_read prot_write) prot_user) m in
    let rest = map_stack_pages pt va phys n (i + 1) m' in if mapped then rest else (false, m')

unfoldable pub map_user_init_stack : (pt stack_top : ℕ) → Machine → Option ℕ × Machine
map_user_init_stack pt stack_top m =
    let (found, m1) = alloc_pages user_stack_pages m in
    elim found [
      | none ↦ (none, m1)
      | some phys ↦
          let (mapped, m2) =
            map_stack_pages pt (stack_top - user_stack_size) phys user_stack_pages 0
              (on_ram (zero_fill phys user_stack_size) m1) in
          (if mapped then some phys else none, m2)
    ]
