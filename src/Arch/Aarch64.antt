-- ===== src/Arch/Aarch64.antt =====
-- kernel/src/arch/aarch64/paging.rs: the identity map, whose tables stand at addresses that the linker
-- gives. The end of the map and the ranges of devices are the board's. The registers that `init` then
-- sets have constant values, and the functions that only panic are left out.
use Prim.Native.Nat.{bit_or}
use ferrugem.Prelude.{
  ℕ, ◌+◌, ◌*◌, ◌/◌, ◌^◌, Bool, false, ◌&&◌, ◌||◌, List, [], ◌∷◌, if◌then◌else◌, ltb, leb,
}
use ferrugem.Arch.Paging.{entry, for_range}
use ferrugem.Machine.{Ram, write_u64}

abbrev pub attr_device : ℕ
attr_device = 0

abbrev pub attr_normal : ℕ
attr_normal = 1

abbrev pub block_af : ℕ
block_af = 0x400

abbrev pub block_sh_inner : ℕ
block_sh_inner = 0x300

abbrev pub block_valid : ℕ
block_valid = 1

abbrev pub table_valid : ℕ
table_valid = 3

-- The ranges are pairs of a base and a size.
unfoldable pub is_device : List (ℕ × ℕ) → (addr : ℕ) → Bool
is_device [] addr = false
is_device ((base, size) ∷ ranges) addr =
    leb base addr && ltb addr (base + size) || is_device ranges addr

unfoldable pub l2_block_entry : (mmio_ranges : List (ℕ × ℕ)) → (addr : ℕ) → ℕ
l2_block_entry mmio_ranges addr =
    let attr_idx = if is_device mmio_ranges addr then attr_device else attr_normal in
    bit_or (bit_or (bit_or (bit_or addr block_af) block_sh_inner) (attr_idx * 4)) block_valid

-- One round of the outer loop: the 512 blocks of a GiB, and the entry of their table.
unfoldable pub map_gib : (mmio_ranges : List (ℕ × ℕ)) → (l1_table l2_tables l1 : ℕ) → Ram → Ram
map_gib mmio_ranges l1_table l2_tables l1 r =
    let l2 = l2_tables + l1 * 4096 in
    let blocks =
      for_range
        (λ l2i.
          write_u64 (entry l2 l2i)
            (l2_block_entry mmio_ranges (bit_or (l1 * 2 ^ 30) (l2i * 2 ^ 21))))
        512 0 r in
    write_u64 (entry l1_table l1) (bit_or l2 table_valid) blocks

-- The loop of `init`, over the GiBs below the end of the map.
unfoldable pub init : (mapped_end : ℕ) → List (ℕ × ℕ) → (l1_table l2_tables : ℕ) → Ram → Ram
init mapped_end mmio_ranges l1_table l2_tables r =
    for_range (map_gib mmio_ranges l1_table l2_tables) (mapped_end / 2 ^ 30) 0 r
