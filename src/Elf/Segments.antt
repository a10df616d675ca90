-- ===== src/Elf/Segments.antt =====
-- kernel/src/elf/mod.rs: `load`, and its loop over the PT_LOAD segments and their pages. The state is
-- physical memory and the page allocator's; pages taken before a failure stay taken, as in the code.
use Prim.Native.Nat.{bit_and, bit_or}
use ferrugem.Prelude.{
  ℕ, zero, suc, ◌+◌, ◌-◌, ◌*◌, ◌/◌, ◌^◌, min, max, Bool, ◌&&◌, not, none, some, List, if◌then◌else◌,
  length, ltb, leb, ◌==◌,
}
use ferrugem.Bytes.{slice}
use ferrugem.Arch.{prot_read, prot_write, prot_exec, prot_user}
use ferrugem.Arch.Paging.{map_user_page}
use ferrugem.Machine.{Machine, write_list, zero_fill, alloc_pages, on_ram}
use ferrugem.Elf.{
  Run, ok, refused, fault, guard, rd, is_elf, Header, read_header, ph, lowest_va, phdr_va_loop,
  bias_of, add_wrap, pt_load, usize_max,
}

abbrev pub M : Type 0 → Type 0
M A = Machine → Run A × Machine

infixl 5 ◌>>=◌
abbrev pub ◌>>=◌ : {A B : Type 0} → M A → (A → M B) → M B
◌>>=◌ x f m =
    let (r, m') = x m in elim r [ ok a ↦ f a m' | refused ↦ (refused, m') | fault ↦ (fault, m') ]

abbrev pub lift : {A : Type 0} → Run A → M A
lift r m = (r, m)

abbrev pub page : M ℕ
page m =
    let (found, m') = alloc_pages 1 m in elim found [ none ↦ (refused, m') | some a ↦ (ok a, m') ]

-- `if pf & flag != 0 { p |= prot; }`.
abbrev add_prot : (pf flag prot p : ℕ) → ℕ
add_prot pf flag prot p = if not (bit_and pf flag == 0) then bit_or p prot else p

unfoldable pub pf_to_prot : ℕ → ℕ
pf_to_prot pf =
    add_prot pf 1 prot_exec (add_prot pf 2 prot_write (add_prot pf 4 prot_read prot_user))

pub record Segment : Type 0 where
  pub vaddr : ℕ
  pub filesz : ℕ
  pub memsz : ℕ
  pub offset : ℕ
  pub flags : ℕ

unfoldable pub read_segment : List ℕ → (o : ℕ) → M Segment
read_segment d o = do
  vaddr ← lift (rd 8 d (o + 16))
  filesz ← lift (rd 8 d (o + 32))
  memsz ← lift (rd 8 d (o + 40))
  offset ← lift (rd 8 d (o + 8))
  flags ← lift (rd 4 d (o + 4))
  lift (
      ok (record { vaddr = vaddr; filesz = filesz; memsz = memsz; offset = offset; flags = flags }))

-- The part of the file that falls within the page at `page_va`.
unfoldable pub copy_part : List ℕ → (seg_va filesz offset page_va phys : ℕ) → M (Unit {0})
copy_part d seg_va filesz offset page_va phys m =
    let lo = max page_va seg_va in
    let hi = min (add_wrap page_va 4096) (add_wrap seg_va filesz) in
    let dst = lo - page_va in
    let src = add_wrap offset (lo - seg_va) in
    let len = hi - lo in
    if ltb lo hi
    then (if leb (src + len) (length d) && leb (dst + len) 4096
        then (ok tt, on_ram (write_list (phys + dst) (slice src (src + len) d)) m)
        else (fault, m))
    else (ok tt, m)

abbrev pub zero_page : ℕ → M (Unit {0})
zero_page phys m = (ok tt, on_ram (zero_fill phys 4096) m)

abbrev pub map_page : (pt page_va phys prot : ℕ) → M Bool
map_page pt page_va phys prot m = let (b, m') = map_user_page pt page_va phys prot m in (ok b, m')

-- One page of a segment: a fresh frame, zeroed, filled and mapped.
unfoldable pub load_page : List ℕ → (pt seg_va filesz offset prot page_va : ℕ) → M (Unit {0})
load_page d pt seg_va filesz offset prot page_va = do
  phys ← page
  done ← zero_page phys
  done ← copy_part d seg_va filesz offset page_va phys
  mapped ← map_page pt page_va phys prot
  lift (guard mapped)

-- `n` pages are left, from page `pi` on.
unfoldable pub load_pages :
    List ℕ → (pt seg_va filesz offset prot page_start n pi : ℕ) → M (Unit {0})
load_pages d pt seg_va filesz offset prot page_start zero pi = lift (ok tt)
load_pages d pt seg_va filesz offset prot page_start (suc n) pi = do
  done ← load_page d pt seg_va filesz offset prot (page_start + pi * 4096)
  load_pages d pt seg_va filesz offset prot page_start n (pi + 1)

-- The body of the loop for a segment whose size in memory is not zero. Returns the new `max_va`.
unfoldable pub load_segment : List ℕ → (pt bias max_va : ℕ) → Segment → M ℕ
load_segment d pt bias max_va s = do
  done ← lift (guard (leb (min (s.offset + s.filesz) usize_max) (length d)))
  seg_va ← lift (ok (add_wrap s.vaddr bias))
  done ← lift (guard (ltb (seg_va + s.memsz) (2 ^ 64)))
  done ← lift (guard (ltb (seg_va + s.memsz + 0xFFF) (2 ^ 64)))
  page_start ← lift (ok (seg_va / 4096 * 4096))
  page_end ← lift (ok ((seg_va + s.memsz + 0xFFF) / 4096 * 4096))
  done ←
      load_pages d pt seg_va s.filesz s.offset (pf_to_prot s.flags) page_start
        ((page_end - page_start) / 4096) 0
  lift (ok (max max_va page_end))

unfoldable pub load_loop : List ℕ → Header → (pt bias n i max_va : ℕ) → M ℕ
load_loop d h pt bias zero i max_va = lift (ok max_va)
load_loop d h pt bias (suc n) i max_va = do
  kind ← lift (rd 4 d (ph h i))
  max_va' ←
      (if kind == pt_load
        then (read_segment d (ph h i) >>= λ s.
            if s.memsz == 0 then lift (ok max_va) else load_segment d pt bias max_va s)
        else lift (ok max_va))
  load_loop d h pt bias n (i + 1) max_va'

-- `(entry_va, heap_start_va, phdr_va, phnum, phentsize)`.
pub record Loaded : Type 0 where
  pub entry_va : ℕ
  pub heap_start_va : ℕ
  pub phdr_va : ℕ
  pub phnum : ℕ
  pub phentsize : ℕ

-- The segments are mapped, and the result is put together.
unfoldable pub load_segments : List ℕ → (pt : ℕ) → Header → (bias phdr_va : ℕ) → M Loaded
load_segments d pt h bias phdr_va = do
  max_va ← load_loop d h pt bias h.phnum 0 0
  lift (
      ok (record {
        entry_va = add_wrap h.entry bias;
        heap_start_va = max_va;
        phdr_va = phdr_va;
        phnum = h.phnum;
        phentsize = h.phentsize;
      }))

-- From the load bias on.
unfoldable pub load_at : List ℕ → (pt : ℕ) → Header → (min_va : ℕ) → M Loaded
load_at d pt h min_va =
    let bias = bias_of h.etype min_va in
    lift (phdr_va_loop d h bias h.phnum 0 (add_wrap h.phoff bias)) >>= load_segments d pt h bias

unfoldable pub load : List ℕ → (pt : ℕ) → M Loaded
load d pt = do
  done ← lift (guard (is_elf d))
  h ← lift (read_header d)
  min_va ← lift (lowest_va d h)
  load_at d pt h min_va
