-- ===== src/Elf/Bounds.antt =====
-- The loader reads inside of the file and copies inside of the file and of its pages, whatever the
-- file holds.
use ferrugem.Prelude.{
  ℕ, zero, suc, ◌+◌, ◌-◌, ◌*◌, ◌^◌, ◌<◌, ◌≤◌, ◌≡◌, ◌≢◌, refl, Bool, true, false, List, arith,
  length, min, if◌then◌else◌, inl, inr, Bool-cases, leb, ltb, ◌==◌,
}
use ferrugem.Machine.{Machine}
use ferrugem.Elf.{
  Run, ok, refused, fault, guard, rd, is_elf, Header, read_header, ph, min_va_loop, lowest_va,
  phdr_va_loop, usize_max, add_wrap, bias_of, pt_load,
}
use ferrugem.Elf
use ferrugem.Elf.Segments.{
  M, ◌>>=◌, lift, Loaded, page, zero_page, map_page, pf_to_prot, Segment, read_segment, copy_part,
  load_page, load_pages, load_segment, load_loop, load_segments, load_at, load,
}
use ferrugem.Arch.Paging.{map_user_page}
use ferrugem.Prelude.{◌/◌, max}

-- A computation that does not fault, in any state.
abbrev pub NoFault : {A : Type 0} → M A → Type 0
NoFault x = (m : Machine) → (x m).0 ≢ fault

ok-ne-fault : {A : Type 0} (a : A) → ok a ≢ fault
ok-ne-fault a = cc

module _ {A B : Type 0} where
  after_safe :
      (p : Run A × Machine) (f : A → M B)
      → p.0 ≢ fault
      → ((a : A) → NoFault (f a))
      → (((λ m. p) >>= f) p.1).0 ≢ fault
  after_safe (ok a, m) f hx hf = hf a m
  after_safe (refused, m) f hx hf = cc
  after_safe (fault, m) f hx hf = absurd (hx refl)

  bind_safe : (x : M A) (f : A → M B) → NoFault x → ((a : A) → NoFault (f a)) → NoFault (x >>= f)
  bind_safe x f hx hf m = after_safe (x m) f (hx m) hf

  lift_safe :
      (r : Run A) (f : A → M B)
      → r ≢ fault
      → ((a : A) → r ≡ ok a → NoFault (f a))
      → NoFault (lift r >>= f)
  lift_safe (ok a) f h hf m = hf a refl m
  lift_safe refused f h hf m = cc
  lift_safe fault f h hf m = absurd (h refl)

guard_safe :
    {B : Type 0} (b : Bool) (f : Unit {0} → M B)
    → (b ≡ true → NoFault (f tt))
    → NoFault (lift (guard b) >>= f)
guard_safe true f hf m = hf refl m
guard_safe false f hf m = cc

guard_end : (b : Bool) → NoFault (lift (guard b))
guard_end true m = ok-ne-fault tt
guard_end false m = cc

rd_ok : (n : ℕ) (d : List ℕ) (o : ℕ) → o + n ≤ length d → rd n d o ≢ fault
unfolding rd
rd_ok n d o h = ground arith

pub record InFile (d : List ℕ) (h : Header) : Type 0 where
  pub long_enough : 56 ≤ h.phentsize
  pub table : h.phoff + h.phnum * h.phentsize ≤ length d

-- A program header below `phnum` lies in the file.
ph_within : (d : List ℕ) (h : Header) (i : ℕ) → InFile d h → i < h.phnum → ph h i + 56 ≤ length d
ph_within d h i v lt =
    let s : suc i * h.phentsize ≤ h.phnum * h.phentsize = grind arith in
    omega (arith, v.long_enough, v.table, s)

header_InFile : (d : List ℕ) (h : Header) → read_header d ≡ ok h → InFile d h
unfolding read_header
header_InFile d h e = record { long_enough = ground arith; table = ground arith }

-- `is_elf` accepts no file that is shorter than a header.
is_elf-length : (d : List ℕ) → is_elf d ≡ true → 64 ≤ length d
unfolding is_elf
is_elf-length d e = ground arith

read_header_ok : (d : List ℕ) → 64 ≤ length d → read_header d ≢ fault
unfolding read_header
read_header_ok d h = ground (
  arith,
  rd_ok 2 d 16 (omega arith),
  rd_ok 8 d 24 (omega arith),
  rd_ok 8 d 32 (omega arith),
  rd_ok 2 d 54 (omega arith),
  rd_ok 2 d 56 (omega arith),
)

-- A chain faults only where one of its steps does.
chain_ok :
    {A B : Type 0} (r : Run A) (f : A → Run B)
    → r ≢ fault
    → ((a : A) → f a ≢ fault)
    → Elf.◌>>=◌ r f ≢ fault
chain_ok (ok a) f h hf = hf a
chain_ok refused f h hf = cc
chain_ok fault f h hf = absurd (h refl)

min_va_loop_ok :
    (d : List ℕ) (h : Header) (n i min_va : ℕ)
    → InFile d h
    → i + n ≤ h.phnum
    → min_va_loop d h n i min_va ≢ fault
unfolding min_va_loop
min_va_loop_ok d h zero i min_va v lt = cc
min_va_loop_ok d h (suc n) i min_va v lt =
    let w = ph_within d h i v (omega arith) in
    chain_ok _ _ (rd_ok 4 d (ph h i) (omega arith)) (λ kind.
      chain_ok _ _ (ground (arith, rd_ok 8 d (ph h i + 16) (omega arith)))
        (λ va. min_va_loop_ok d h n (i + 1) _ v (omega arith)))

phdr_va_loop_ok :
    (d : List ℕ) (h : Header) (bias n i default : ℕ)
    → InFile d h
    → i + n ≤ h.phnum
    → phdr_va_loop d h bias n i default ≢ fault
unfolding phdr_va_loop
phdr_va_loop_ok d h bias zero i default v lt = cc
phdr_va_loop_ok d h bias (suc n) i default v lt =
    let w = ph_within d h i v (omega arith) in
    chain_ok _ _ (rd_ok 4 d (ph h i) (omega arith)) (λ kind. ground (
      arith,
      rd_ok 8 d (ph h i + 16) (omega arith),
      phdr_va_loop_ok d h bias n (i + 1) default v (omega arith),
    ))

-- The copy of a page's part stays inside of the file and of the page.
copy_part_safe :
    (d : List ℕ) (seg_va filesz offset page_va phys : ℕ)
    → offset + filesz ≤ length d
    → NoFault (copy_part d seg_va filesz offset page_va phys)
unfolding copy_part
copy_part_safe d seg_va filesz offset page_va phys h m = ground arith

page_safe : NoFault page
page_safe m = ground arith

load_page_safe :
    (d : List ℕ) (pt seg_va filesz offset prot page_va : ℕ)
    → offset + filesz ≤ length d
    → NoFault (load_page d pt seg_va filesz offset prot page_va)
unfolding load_page
load_page_safe d pt seg_va filesz offset prot page_va h =
    let map_it = λ (phys : ℕ). map_page pt page_va phys prot >>= λ b. lift (guard b) in
    let copy_it =
      λ (phys : ℕ). copy_part d seg_va filesz offset page_va phys >>= λ _. map_it phys in
    bind_safe page (λ phys. zero_page phys >>= λ _. copy_it phys) page_safe
      (λ phys.
        bind_safe (zero_page phys) (λ _. copy_it phys) (λ m. ok-ne-fault tt)
          (λ _.
            bind_safe (copy_part d seg_va filesz offset page_va phys) (λ _. map_it phys)
              (copy_part_safe d seg_va filesz offset page_va phys h)
              (λ _.
                bind_safe (map_page pt page_va phys prot) (λ b. lift (guard b))
                  (λ m. ok-ne-fault (map_user_page pt page_va phys prot m).0) guard_end)))

load_pages_safe :
    (d : List ℕ) (pt seg_va filesz offset prot page_start n pi : ℕ)
    → offset + filesz ≤ length d
    → NoFault (load_pages d pt seg_va filesz offset prot page_start n pi)
unfolding load_pages
load_pages_safe d pt seg_va filesz offset prot page_start zero pi h = λ m. ok-ne-fault tt
load_pages_safe d pt seg_va filesz offset prot page_start (suc n) pi h =
    bind_safe (load_page d pt seg_va filesz offset prot (page_start + pi * 4096))
      (λ _. load_pages d pt seg_va filesz offset prot page_start n (pi + 1))
      (load_page_safe d pt seg_va filesz offset prot (page_start + pi * 4096) h)
      (λ _. load_pages_safe d pt seg_va filesz offset prot page_start n (pi + 1) h)

load_segment_safe :
    (d : List ℕ) (pt bias max_va : ℕ) (s : Segment)
    → length d < 2 ^ 63
    → NoFault (load_segment d pt bias max_va s)
unfolding load_segment
load_segment_safe d pt bias max_va s small =
    guard_safe (leb (min (s.offset + s.filesz) usize_max) (length d)) _ (λ fits.
      let within : s.offset + s.filesz ≤ length d = ground arith in
      guard_safe (ltb (add_wrap s.vaddr bias + s.memsz) (2 ^ 64)) _ (λ _.
        guard_safe (ltb (add_wrap s.vaddr bias + s.memsz + 0xFFF) (2 ^ 64)) _ (λ _.
          let seg_va = add_wrap s.vaddr bias in
          let page_start = seg_va / 4096 * 4096 in
          let page_end = (seg_va + s.memsz + 0xFFF) / 4096 * 4096 in
          let n = (page_end - page_start) / 4096 in
          bind_safe (load_pages d pt seg_va s.filesz s.offset (pf_to_prot s.flags) page_start n 0)
            (λ _. lift (ok (max max_va page_end)))
            (load_pages_safe d pt seg_va s.filesz s.offset (pf_to_prot s.flags) page_start n 0
              within)
            (λ _ m. ok-ne-fault (max max_va page_end)))))

read_segment_safe : (d : List ℕ) (o : ℕ) → o + 56 ≤ length d → NoFault (read_segment d o)
unfolding read_segment
read_segment_safe d o h = lift_safe _ _ (rd_ok 8 d (o + 16) (omega arith)) (λ _ _.
    lift_safe _ _ (rd_ok 8 d (o + 32) (omega arith)) (λ _ _.
      lift_safe _ _ (rd_ok 8 d (o + 40) (omega arith)) (λ _ _.
        lift_safe _ _ (rd_ok 8 d (o + 8) (omega arith))
          (λ _ _. lift_safe _ _ (rd_ok 4 d (o + 4) (omega arith)) (λ _ _ m. ok-ne-fault _)))))

kept_segment :
    (d : List ℕ) (pt bias max_va : ℕ) (s : Segment)
    → length d < 2 ^ 63
    → NoFault (if s.memsz == 0 then lift (ok max_va) else load_segment d pt bias max_va s)
kept_segment d pt bias max_va s small = elim (Bool-cases (s.memsz == 0)) [
  | inl z ↦ rw z (λ m. ok-ne-fault max_va)
  | inr z ↦ rw z (load_segment_safe d pt bias max_va s small)
]

abbrev one_header : List ℕ → Header → (pt bias i max_va kind : ℕ) → M ℕ
one_header d h pt bias i max_va kind =
    if kind == pt_load
    then (read_segment d (ph h i) >>= λ s.
        if s.memsz == 0 then lift (ok max_va) else load_segment d pt bias max_va s)
    else lift (ok max_va)

one_header_safe :
    (d : List ℕ) (h : Header) (pt bias i max_va kind : ℕ)
    → ph h i + 56 ≤ length d
    → length d < 2 ^ 63
    → NoFault (one_header d h pt bias i max_va kind)
one_header_safe d h pt bias i max_va kind w small = elim (Bool-cases (kind == pt_load)) [
  | inl e ↦ rw e (
      bind_safe (read_segment d (ph h i))
        (λ s. if s.memsz == 0 then lift (ok max_va) else load_segment d pt bias max_va s)
        (read_segment_safe d (ph h i) w) (λ s. kept_segment d pt bias max_va s small))
  | inr e ↦ rw e (λ m. ok-ne-fault max_va)
]

load_loop_safe :
    (d : List ℕ) (h : Header) (pt bias n i max_va : ℕ)
    → InFile d h
    → length d < 2 ^ 63
    → i + n ≤ h.phnum
    → NoFault (load_loop d h pt bias n i max_va)
unfolding load_loop
load_loop_safe d h pt bias zero i max_va v small lt = λ m. ok-ne-fault max_va
load_loop_safe d h pt bias (suc n) i max_va v small lt =
    let w = ph_within d h i v (omega arith) in
    lift_safe _ _ (rd_ok 4 d (ph h i) (omega arith)) (λ kind _.
      bind_safe (one_header d h pt bias i max_va kind)
        (λ max_va'. load_loop d h pt bias n (i + 1) max_va')
        (one_header_safe d h pt bias i max_va kind w small)
        (λ max_va'. load_loop_safe d h pt bias n (i + 1) max_va' v small (omega arith)))

load_segments_safe :
    (d : List ℕ) (pt : ℕ) (h : Header) (bias phdr_va : ℕ)
    → InFile d h
    → length d < 2 ^ 63
    → NoFault (load_segments d pt h bias phdr_va)
unfolding load_segments
load_segments_safe d pt h bias phdr_va v small =
    let finish = λ (max_va : ℕ).
      let r : Loaded = record {
        entry_va = add_wrap h.entry bias;
        heap_start_va = max_va;
        phdr_va = phdr_va;
        phnum = h.phnum;
        phentsize = h.phentsize;
      } in
      r in
    bind_safe (load_loop d h pt bias h.phnum 0 0) (λ max_va. lift (ok (finish max_va)))
      (load_loop_safe d h pt bias h.phnum 0 0 v small (omega arith))
      (λ max_va m. ok-ne-fault (finish max_va))

load_at_safe :
    (d : List ℕ) (pt : ℕ) (h : Header) (min_va : ℕ)
    → InFile d h
    → length d < 2 ^ 63
    → NoFault (load_at d pt h min_va)
unfolding load_at
load_at_safe d pt h min_va v small =
    let bias = bias_of h.etype min_va in
    lift_safe (phdr_va_loop d h bias h.phnum 0 (add_wrap h.phoff bias)) (load_segments d pt h bias)
      (phdr_va_loop_ok d h bias h.phnum 0 (add_wrap h.phoff bias) v (omega arith))
      (λ phdr_va _. load_segments_safe d pt h bias phdr_va v small)

lowest_va_ok : (d : List ℕ) (h : Header) → InFile d h → lowest_va d h ≢ fault
unfolding lowest_va
lowest_va_ok d h v =
    chain_ok (min_va_loop d h h.phnum 0 usize_max) _
      (min_va_loop_ok d h h.phnum 0 usize_max v (omega arith)) (λ min_va. ground arith)

-- For every file shorter than 2⁶³ bytes, any page table and any state of memory, `load` reads no
-- byte outside of the file, and no copy of it passes the end of the file or of a page.
pub load-ne-fault :
    (d : List ℕ) (pt : ℕ) (m : Machine) → length d < 2 ^ 63 → (load d pt m).0 ≢ fault
unfolding load
load-ne-fault d pt m small =
    let from = λ (h : Header). lift (lowest_va d h) >>= load_at d pt h in
    guard_safe (is_elf d) (λ _. lift (read_header d) >>= from)
      (λ elf. lift_safe (read_header d) from (read_header_ok d (is_elf-length d elf)) (λ h e.
        let v = header_InFile d h e in
        lift_safe (lowest_va d h) (load_at d pt h) (lowest_va_ok d h v)
          (λ min_va _. load_at_safe d pt h min_va v small)))
      m
