-- ===== src/Boards/Multiboot.antt =====
-- kernel/src/boards/qemu_pc/multiboot.rs: the memory map that the boot loader hands over. The file
-- kernel/src/boards/virtualbox/multiboot.rs is the same. The two words that the start code saves are
-- arguments. An entry takes 24 bytes at least, so the loop runs on a fuel that its length bounds.
use Prim.Native.Nat.{bit_and}
use ferrugem.Prelude.{
  ℕ, zero, suc, ◌+◌, ◌*◌, ◌/◌, ◌≤◌, ◌<◌, ◌≡◌, refl, arith, Bool, true, ◌&&◌, not, if◌then◌else◌,
  leb, ◌==◌, Bool-cases, inl, inr,
}
use ferrugem.Bytes.{from_le_bytes}
use ferrugem.Machine.{Ram, bytes_at, read_u64}
use ferrugem.Memory.Mmap.{MemoryMap, usable, reserved, empty, add}

abbrev pub mb_magic : ℕ
mb_magic = 0x2BADB002

abbrev pub flag_mem : ℕ
flag_mem = 1

abbrev pub flag_mmap : ℕ
flag_mmap = 64

unfoldable pub read_u32 : Ram → ℕ → ℕ
read_u32 r a = from_le_bytes (bytes_at r a 4)

-- The entry at `ptr`: its base, its length and its kind.
unfoldable pub add_entry : Ram → (ptr : ℕ) → MemoryMap → MemoryMap
add_entry r ptr map =
    add (read_u64 r (ptr + 4)) (read_u64 r (ptr + 12))
      (if read_u32 r (ptr + 20) == 1 then usable else reserved) map

-- Whether an entry stands at `ptr` and ends within the table.
unfoldable pub fits : Ram → (end ptr : ℕ) → Bool
fits r end ptr =
    let entry_size = read_u32 r ptr in
    leb (ptr + 4) end && leb 20 entry_size && leb (ptr + 4 + entry_size) end

unfoldable pub entries_from : Ram → (end fuel ptr : ℕ) → MemoryMap → MemoryMap
entries_from r end zero ptr map = map
entries_from r end (suc fuel) ptr map =
    let rest = entries_from r end fuel (ptr + 4 + read_u32 r ptr) (add_entry r ptr map) in
    if fits r end ptr then rest else map

unfoldable pub parse_mmap_entries : Ram → (mmap_addr mmap_len : ℕ) → MemoryMap → MemoryMap
parse_mmap_entries r mmap_addr mmap_len map =
    entries_from r (mmap_addr + mmap_len) (mmap_len / 24) mmap_addr map

unfoldable pub fallback : MemoryMap → MemoryMap
fallback map = add 0x100000 (127 * 1024 * 1024) usable map

unfoldable pub parse_memory_map : (magic info : ℕ) → Ram → MemoryMap
parse_memory_map magic info r =
    let flags = read_u32 r info in
    if not (magic == mb_magic)
    then fallback empty
    else if not (bit_and flags flag_mmap == 0)
    then parse_mmap_entries r (read_u32 r (info + 48)) (read_u32 r (info + 44)) empty
    else if not (bit_and flags flag_mem == 0)
    then add 0x100000 (read_u32 r (info + 8) * 1024) usable empty
    else fallback empty

fits-room : (r : Ram) (end ptr : ℕ) → fits r end ptr ≡ true → ptr + 24 ≤ ptr + 4 + read_u32 r ptr
unfolding fits
fits-room r end ptr h = ground arith

fits-end : (r : Ram) (end ptr : ℕ) → fits r end ptr ≡ true → ptr + 4 + read_u32 r ptr ≤ end
unfolding fits
fits-end r end ptr h = ground arith

-- Once there is a unit of fuel for each 24 bytes that are left, more fuel changes nothing.
pub entries_from-enough :
    (r : Ram) (end fuel more ptr : ℕ) (map : MemoryMap)
    → end < ptr + 24 * (fuel + 1)
    → fuel ≤ more
    → entries_from r end more ptr map ≡ entries_from r end fuel ptr map
unfolding entries_from
entries_from-enough r end zero zero ptr map h le = refl
entries_from-enough r end zero (suc more) ptr map h le = elim (Bool-cases (fits r end ptr)) [
  | inl e ↦ absurd (omega (arith, fits-room r end ptr e, fits-end r end ptr e, h))
  | inr e ↦ rw e refl
]
entries_from-enough r end (suc fuel) zero ptr map h le = absurd (omega (arith, le))
entries_from-enough r end (suc fuel) (suc more) ptr map h le = elim (Bool-cases (fits r end ptr)) [
  | inl e ↦
      let same =
        entries_from-enough r end fuel more (ptr + 4 + read_u32 r ptr) (add_entry r ptr map)
          (omega (arith, fits-room r end ptr e, h)) (omega (arith, le)) in
      rw (e, same) refl
  | inr e ↦ rw e refl
]
