-- ===== src/Arch/Tests.antt =====
-- The page tables at concrete inputs.
use ferrugem.Prelude.{ℕ, ◌≡◌, refl, true}
use ferrugem.Machine.{
  Machine, read_u64, bytes_at, alloc_pages, on_ram, zero_fill, write_u64, write_list,
}
use ferrugem.Bytes.{from_le_bytes, le_bytes}
use ferrugem.Memory.Pages
use ferrugem.Memory.Bump
use ferrugem.Memory.Bitmap.{alloc_frames, scan, mark_all, mark_used, frame_to_addr}
use ferrugem.Memory.Bitmap.Init.{all_free}
use ferrugem.Arch.Paging.{map_user_page, has, next_table, set_leaf, flags_of, table_entry, target}
use ferrugem.Bits.{bit_not}
use ferrugem.Arch.Paging.Tree.{Tree}

-- 64 frames from 1 MiB on, all free, and memory that holds zeros.
abbrev before : Machine
before = record {
  ram = λ a. 0;
  memory = record { bump = Bump.new 0 0; bitmap_ready = true; pmm = all_free 0x100000 64 };
}

-- The first frame is taken for an empty root table.
abbrev root : ℕ
root = 0x100000

abbrev root_only : Machine
root_only = (alloc_pages 1 before).1

-- The mapping succeeds.
mapped_there : (map_user_page root 0x8000001000 0x105000 11 root_only).0 ≡ true
unfolding map_user_page next_table set_leaf flags_of table_entry target has on_ram zero_fill
    write_u64 write_list read_u64 bytes_at le_bytes from_le_bytes alloc_pages Pages.alloc_pages
    alloc_frames scan all_free mark_all mark_used frame_to_addr bit_not
mapped_there = refl
