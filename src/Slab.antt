-- ===== src/Slab.antt =====
-- kernel/src/memory/slab.rs: caches of blocks of nine sizes, each a free list that is threaded through
-- the free blocks themselves. A null pointer is 0, which no block has for its address.
pub mod Heap
pub mod Lists
mod Tests
use ferrugem.Prelude.{
  ℕ, zero, suc, ◌+◌, ◌-◌, ◌*◌, ◌/◌, ◌%◌, ◌^◌, max, Bool, true, false, ◌&&◌, not, Option, none, some,
  List, [], ◌∷◌, if◌then◌else◌, ltb, leb, ◌==◌, get_or, set, replicate,
}
use ferrugem.Machine.{Machine, read_u64, write_u64, alloc_pages, on_ram, free_pages}

abbrev pub classes : List ℕ
classes = 8 ∷ 16 ∷ 32 ∷ 64 ∷ 128 ∷ 256 ∷ 512 ∷ 1024 ∷ 2048 ∷ []

abbrev pub slab_pages : ℕ
slab_pages = 1

abbrev pub slab_size : ℕ
slab_size = slab_pages * 4096

pub record Cache : Type 0 where
  pub head : ℕ
  pub block_size : ℕ

abbrev pub empty : Cache
empty = record { head = 0; block_size = 0 }

-- The caches, over the memory in which the blocks lie.
pub record Slab : Type 0 where
  pub machine : Machine
  pub caches : List Cache

unfoldable pub init_caches : List ℕ → List Cache
init_caches [] = []
init_caches (sz ∷ sizes) = record { head = 0; block_size = sz } ∷ init_caches sizes

unfoldable pub init : Machine → Slab
init m = record { machine = m; caches = init_caches classes }

-- The position of the first class of `size` bytes or more.
unfoldable pub class_from : List ℕ → (i size : ℕ) → Option ℕ
class_from [] i size = none
class_from (s ∷ sizes) i size =
    let rest = class_from sizes (i + 1) size in if leb size s then some i else rest

unfoldable pub class_index : ℕ → Option ℕ
class_index size = class_from classes 0 size

abbrev pub cache_at : Slab → ℕ → Cache
cache_at s idx = get_or s.caches idx empty

abbrev pub set_head : (idx head : ℕ) → Slab → Slab
set_head idx head s = record s {
  caches = set s.caches idx (record (cache_at s idx) { head = head });
}

-- Links the blocks of a slab from block `i` on, `n` of them, the last one to `head`.
unfoldable pub link_blocks : (slab block_size head n i : ℕ) → Machine → Machine
link_blocks slab block_size head zero i m = m
link_blocks slab block_size head (suc n) i m =
    let next = if n == 0 then head else slab + (i + 1) * block_size in
    link_blocks slab block_size head n (i + 1) (on_ram (write_u64 (slab + i * block_size) next) m)

unfoldable pub grow : (idx : ℕ) → Slab → Bool × Slab
grow idx s =
    let c = cache_at s idx in
    let (found, m) = alloc_pages slab_pages s.machine in
    elim found [
      | none ↦ (false, record s { machine = m })
      | some slab ↦ (
        true,
        set_head idx slab (record s {
          machine = link_blocks slab c.block_size c.head (slab_size / c.block_size) 0 m;
        }),
      )
    ]

-- Takes the first block of a cache that has one.
unfoldable pub pop_block : (idx : ℕ) → Slab → ℕ × Slab
pop_block idx s =
    let block = (cache_at s idx).head in (block, set_head idx (read_u64 s.machine.ram block) s)

unfoldable pub alloc : (size : ℕ) → Slab → ℕ × Slab
alloc size' s =
    let size = max size' 8 in
    elim (class_index size) [
      | none ↦
          let (found, m) = alloc_pages ((size + 4095) / 4096) s.machine in
          (elim found [ none ↦ 0 | some a ↦ a ], record s { machine = m })
      | some idx ↦
          if (cache_at s idx).head == 0
          then (let (grown, s') = grow idx s in if grown then pop_block idx s' else (0, s'))
          else pop_block idx s
    ]

unfoldable pub push_block : (idx ptr : ℕ) → Slab → Slab
push_block idx ptr s =
    set_head idx ptr (record s { machine = on_ram (write_u64 ptr (cache_at s idx).head) s.machine })

unfoldable pub dealloc : (ptr size : ℕ) → Slab → Slab
dealloc ptr size' s =
    let size = max size' 8 in
    if ptr == 0 then s else elim (class_index size) [
      | none ↦ record s { machine = free_pages ptr ((size + 4095) / 4096) s.machine }
      | some idx ↦ push_block idx ptr s
    ]
