-- ===== src/Machine.antt =====
-- What the code reaches through raw pointers: the bytes of physical memory, beside the state of the
-- page allocator. The kernel maps memory to itself, so a pointer is a physical address.
pub mod Words
pub mod Frames
use ferrugem.Prelude.{ℕ, zero, suc, ◌+◌, ◌&&◌, Option, List, [], ◌∷◌, if◌then◌else◌, ltb, leb, ◌==◌}
use ferrugem.Bytes.{le_bytes, from_le_bytes}
use ferrugem.Memory.Pages.{Memory}
use ferrugem.Memory.Pages

-- The byte at each address.
abbrev pub Ram : Type 0
Ram = ℕ → ℕ

pub record Machine : Type 0 where
  pub ram : Ram
  pub memory : Memory

-- `n` bytes from `a` on.
unfoldable pub bytes_at : Ram → (a n : ℕ) → List ℕ
bytes_at r a zero = []
bytes_at r a (suc n) = r a ∷ bytes_at r (a + 1) n

-- `copy_nonoverlapping(bytes, a, bytes.len())`.
unfoldable pub write_list : (a : ℕ) → List ℕ → Ram → Ram
write_list a [] r b = r b
write_list a (x ∷ xs) r b = if b == a then x else write_list (a + 1) xs r b

-- `write_bytes(a, 0, n)`.
unfoldable pub zero_fill : (a n : ℕ) → Ram → Ram
zero_fill a n r b = if leb a b && ltb b (a + n) then 0 else r b

-- `read` and `write` of a `*mut u64`.
unfoldable pub read_u64 : Ram → ℕ → ℕ
read_u64 r a = from_le_bytes (bytes_at r a 8)

unfoldable pub write_u64 : (a v : ℕ) → Ram → Ram
write_u64 a v r = write_list a (le_bytes 8 v) r

unfoldable pub alloc_pages : ℕ → Machine → Option ℕ × Machine
alloc_pages pages m =
    let (found, memory) = Pages.alloc_pages pages m.memory in (found, record m { memory = memory })

-- A change of memory alone.
unfoldable pub on_ram : (Ram → Ram) → Machine → Machine
on_ram f m = record m { ram = f m.ram }

unfoldable pub free_pages : (addr pages : ℕ) → Machine → Machine
free_pages addr pages m = record m { memory = Pages.free_pages addr pages m.memory }
