-- ===== src/Elf.antt =====
-- kernel/src/elf/mod.rs: the loader of ELF64 files, over x86_64 page tables. A file is a list of
-- bytes. A read or a copy outside of the file or of a page is a fault, which the code never handles:
-- a panic, or memory that is not the file's. Sums wrap at 64 bits where the code does not check them.
pub mod Segments
pub mod Bounds
pub mod Image
mod Tests
use ferrugem.Prelude.{
  ℕ, zero, suc, ◌+◌, ◌-◌, ◌*◌, ◌/◌, ◌%◌, ◌^◌, min, Bool, true, false, ◌&&◌, not, Option, none, some,
  List, if◌then◌else◌, length, take, ltb, leb, ◌==◌,
}
use ferrugem.Prelude.{[], ◌∷◌, get_or}
use ferrugem.Bytes.{slice, from_le_bytes}
use ferrugem.Arch.{user_base_va}

-- A value, the `None` of the code, or a fault.
pub data Run {ℓ} (A : Type ℓ) : Type ℓ where
  ok : A → Run A
  refused : Run A
  fault : Run A

infixl 5 ◌>>=◌
abbrev pub ◌>>=◌ {ℓ κ} : {A : Type ℓ} {B : Type κ} → Run A → (A → Run B) → Run B
ok a >>= f = f a
refused >>= f = refused
fault >>= f = fault

-- `if !b { return None; }`.
abbrev pub guard : Bool → Run (Unit {0})
guard b = if b then ok tt else refused

abbrev pub pt_load : ℕ
pt_load = 1

abbrev pt_phdr : ℕ
pt_phdr = 6

abbrev et_dyn : ℕ
et_dyn = 3

abbrev pub usize_max : ℕ
usize_max = 2 ^ 64 - 1

-- `rd16`, `rd32` and `rd64` for `n` of 2, 4 and 8: an index out of bounds panics.
unfoldable pub rd : (n : ℕ) → List ℕ → ℕ → Run ℕ
rd n d o = if leb (o + n) (length d) then ok (from_le_bytes (slice o (o + n) d)) else fault

unfoldable pub is_elf : List ℕ → Bool
is_elf d =
    leb 64 (length d)
    && (get_or d 0 0 == 0x7f
        && get_or d 1 0 == b'E'
        && get_or d 2 0 == b'L'
        && get_or d 3 0 == b'F')
    && get_or d 4 0 == 2
    && get_or d 5 0 == 1

pub record Header : Type 0 where
  pub etype : ℕ
  pub entry : ℕ
  pub phoff : ℕ
  pub phentsize : ℕ
  pub phnum : ℕ

-- The reads and checks before the first loop.
unfoldable pub read_header : List ℕ → Run Header
read_header d = do
  etype ← rd 2 d 16
  entry ← rd 8 d 24
  phoff ← rd 8 d 32
  phentsize ← rd 2 d 54
  phnum ← rd 2 d 56
  done ← guard (leb 56 phentsize && not (phnum == 0))
  done ← guard (ltb (phnum * phentsize) (2 ^ 64))
  done ← guard (ltb (phoff + phnum * phentsize) (2 ^ 64))
  done ← guard (leb (phoff + phnum * phentsize) (length d))
  ok (record { etype = etype; entry = entry; phoff = phoff; phentsize = phentsize; phnum = phnum })

-- The offset of program header `i`.
abbrev pub ph : Header → ℕ → ℕ
ph h i = h.phoff + i * h.phentsize

-- The lowest page of a PT_LOAD segment: `n` headers are left, from `i` on.
unfoldable pub min_va_loop : List ℕ → Header → (n i min_va : ℕ) → Run ℕ
min_va_loop d h zero i min_va = ok min_va
min_va_loop d h (suc n) i min_va = do
  kind ← rd 4 d (ph h i)
  va ← (if kind == pt_load then rd 8 d (ph h i + 16) else ok usize_max)
  min_va_loop d h n (i + 1)
      (let page = va / 4096 * 4096 in if kind == pt_load && ltb page min_va then page else min_va)

-- The lowest page, which some segment must have.
unfoldable pub lowest_va : List ℕ → Header → Run ℕ
lowest_va d h = do
  min_va ← min_va_loop d h h.phnum 0 usize_max
  done ← guard (not (min_va == usize_max))
  ok min_va

-- The bias as a `u64`, to be added modulo 2⁶⁴.
unfoldable pub bias_of : (etype min_va : ℕ) → ℕ
bias_of etype min_va = if etype == et_dyn then (user_base_va + 2 ^ 64 - min_va) % 2 ^ 64 else 0

abbrev pub add_wrap : ℕ → ℕ → ℕ
add_wrap a b = (a + b) % 2 ^ 64

-- `p_vaddr + bias` of the first PT_PHDR segment, or the value given.
unfoldable pub phdr_va_loop : List ℕ → Header → (bias n i default : ℕ) → Run ℕ
phdr_va_loop d h bias zero i default = ok default
phdr_va_loop d h bias (suc n) i default = do
  kind ← rd 4 d (ph h i)
  (if kind == pt_phdr
      then (rd 8 d (ph h i + 16) >>= λ va. ok (add_wrap va bias))
      else phdr_va_loop d h bias n (i + 1) default)
