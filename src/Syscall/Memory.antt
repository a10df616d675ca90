-- ===== src/Syscall/Memory.antt =====
-- `brk`, `mmap` and `munmap` of kernel/src/syscall/mod.rs, over the page tables of x86_64. The other
-- arguments of `mmap` and those of `munmap` are not read.
use Prim.Native.Nat.{bit_and, bit_or}
use ferrugem.Prelude.{
  ℕ, zero, suc, ◌+◌, ◌-◌, ◌*◌, ◌/◌, ◌%◌, ◌^◌, Bool, true, false, ◌&&◌, ◌||◌, not, none, some,
  if◌then◌else◌, ltb, leb, ◌==◌,
}
use ferrugem.Arch.{prot_read, prot_write, prot_exec, prot_user, user_base_va}
use ferrugem.Arch.Paging.{map_user_page}
use ferrugem.Machine.{Machine, zero_fill, alloc_pages, on_ram}
use ferrugem.Scheduler.{Scheduler}
use ferrugem.Scheduler.Current.{current_heap_brk, current_page_table_phys, set_heap_brk}
use ferrugem.Syscall.Files.{SysResult, done, error}

pub record Kernel : Type 0 where
  pub sched : Scheduler
  pub machine : Machine

-- `(x + 0xFFF) & !0xFFF`; the sum wraps.
abbrev pub round_up : ℕ → ℕ
round_up x = (x + 0xFFF) % 2 ^ 64 / 4096 * 4096

-- Maps `n` zeroed pages from `va` on, and stops at the first that cannot be had or mapped.
unfoldable pub map_zeroed : (pt prot n va : ℕ) → Machine → Bool × Machine
map_zeroed pt prot zero va m = (true, m)
map_zeroed pt prot (suc n) va m =
    let (found, m1) = alloc_pages 1 m in
    elim found [
      | none ↦ (false, m1)
      | some phys ↦
          let (mapped, m2) = map_user_page pt va phys prot (on_ram (zero_fill phys 4096) m1) in
          let rest = map_zeroed pt prot n ((va + 4096) % 2 ^ 64) m2 in
          if mapped then rest else (false, m2)
    ]

unfoldable pub sys_brk : (addr : ℕ) → Kernel → SysResult × Kernel
sys_brk addr k =
    let current = current_heap_brk k.sched in
    let pt = current_page_table_phys k.sched in
    let grown =
      let page_lo = round_up current in
      let page_hi = round_up addr in
      let (mapped, m) =
        map_zeroed pt (bit_or (bit_or prot_read prot_write) prot_user) ((page_hi - page_lo) / 4096)
          page_lo k.machine in
      if mapped
      then (done addr, record { sched = set_heap_brk addr k.sched; machine = m })
      else (done current, record k { machine = m }) in
    let shrunk : SysResult × Kernel = (done addr, record k { sched = set_heap_brk addr k.sched }) in
    if addr == 0 || pt == 0 then (done current, k) else if leb addr current then shrunk else grown

-- `if prot & bit != 0 { p |= flag; }`.
abbrev add_flag : (prot bit flag p : ℕ) → ℕ
add_flag prot bit flag p = if not (bit_and prot bit == 0) then bit_or p flag else p

unfoldable pub arch_prot : ℕ → ℕ
arch_prot prot =
    add_flag prot 4 prot_exec (add_flag prot 2 prot_write (add_flag prot 1 prot_read prot_user))

unfoldable pub sys_mmap : (addr len prot flags : ℕ) → Kernel → SysResult × Kernel
sys_mmap addr len prot flags k =
    let pt = current_page_table_phys k.sched in
    let n_pages = (len + 0xFFF) % 2 ^ 64 / 4096 in
    let brk = current_heap_brk k.sched in
    let base = if not (addr == 0) && leb user_base_va addr then addr else round_up brk in
    let (mapped, m) = map_zeroed pt (arch_prot prot) n_pages base k.machine in
    let top = (base + n_pages * 4096) % 2 ^ 64 in
    let sched = if ltb brk top then set_heap_brk top k.sched else k.sched in
    if len == 0
    then (error 22, k)
    else if bit_and flags 0x20 == 0
    then (error 38, k)
    else if pt == 0
    then (error 22, k)
    else if mapped
    then (done base, record { sched = sched; machine = m })
    else (error 12, record k { machine = m })

unfoldable pub sys_munmap : Kernel → SysResult × Kernel
sys_munmap k = (done 0, k)
