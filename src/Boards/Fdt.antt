-- ===== src/Boards/Fdt.antt =====
-- kernel/src/boards/qemu_virt_riscv64/fdt.rs: the memory regions of a flattened device tree. The
-- address that the start code saves is an argument. The source reads on until a token ends the tree,
-- and a string until a null, however far that is: both loops run on fuel here, and `none` is a run
-- that the fuel does not end.
use ferrugem.Prelude.{
  ℕ, zero, suc, ◌+◌, ◌-◌, ◌*◌, ◌/◌, ◌%◌, ◌^◌, Bool, false, ◌&&◌, ◌||◌, not, Option, none, some,
  List, [], ◌∷◌, ◌++◌, if◌then◌else◌, take, ◌==◌, length, ◌≤◌, ◌≡◌, arith, inl, inr, Option-cases,
}
use ferrugem.Machine.{Ram, bytes_at}
use ferrugem.Memory.Mmap.{MemoryMap, usable, empty, add}
use ferrugem.Vfs.Path.{Bytes, bytes_eq}

abbrev pub fdt_magic : ℕ
fdt_magic = 0xd00dfeed

abbrev pub fdt_begin_node : ℕ
fdt_begin_node = 1

abbrev pub fdt_end_node : ℕ
fdt_end_node = 2

abbrev pub fdt_prop : ℕ
fdt_prop = 3

abbrev pub fdt_nop : ℕ
fdt_nop = 4

-- `from_be_bytes`, after the bytes that `acc` stands for.
unfoldable pub from_be_bytes : (acc : ℕ) → List ℕ → ℕ
from_be_bytes acc [] = acc
from_be_bytes acc (b ∷ bs) = from_be_bytes (acc * 256 + b) bs

unfoldable pub be32_at : Ram → ℕ → ℕ
be32_at r p = from_be_bytes 0 (bytes_at r p 4)

unfoldable pub be64_at : Ram → ℕ → ℕ
be64_at r p = from_be_bytes 0 (bytes_at r p 8)

unfoldable pub cstr_bytes : Ram → (fuel p : ℕ) → Option Bytes
cstr_bytes r zero p = none
cstr_bytes r (suc fuel) p =
    let rest = cstr_bytes r fuel (p + 1) in
    if r p == 0 then some [] else (elim rest [ none ↦ none | some bs ↦ some (r p ∷ bs) ])

unfoldable pub read_cells : Ram → (p cells : ℕ) → ℕ
read_cells r p cells = if cells == 2 then be64_at r p else be32_at r p

-- The pairs of a `reg` property from pair `i` on, `n` of them.
unfoldable pub add_regs :
    Ram → (at entry_bytes addr_cells size_cells n i : ℕ) → MemoryMap → MemoryMap
add_regs r at entry_bytes addr_cells size_cells zero i map = map
add_regs r at entry_bytes addr_cells size_cells (suc n) i map =
    let p = at + i * entry_bytes in
    add_regs r at entry_bytes addr_cells size_cells n (i + 1)
      (add (read_cells r p addr_cells) (read_cells r (p + addr_cells * 4) size_cells) usable map)

-- The sum of the cells is a `u32`.
unfoldable pub parse_reg : Ram → (at len addr_cells size_cells : ℕ) → MemoryMap → MemoryMap
parse_reg r at len addr_cells size_cells map =
    let entry_bytes = (addr_cells + size_cells) % 2 ^ 32 * 4 in
    if entry_bytes == 0
    then map
    else add_regs r at entry_bytes addr_cells size_cells (len / entry_bytes) 0 map

abbrev pub memory_name : Bytes
memory_name = b'm' ∷ b'e' ∷ b'm' ∷ b'o' ∷ b'r' ∷ b'y' ∷ []

abbrev pub cells_tail : Bytes
cells_tail = b'-' ∷ b'c' ∷ b'e' ∷ b'l' ∷ b'l' ∷ b's' ∷ []

abbrev pub address_cells_name : Bytes
address_cells_name = b'#' ∷ b'a' ∷ b'd' ∷ b'd' ∷ b'r' ∷ b'e' ∷ b's' ∷ b's' ∷ cells_tail

abbrev pub size_cells_name : Bytes
size_cells_name = b'#' ∷ b's' ∷ b'i' ∷ b'z' ∷ b'e' ∷ cells_tail

abbrev pub reg_name : Bytes
reg_name = b'r' ∷ b'e' ∷ b'g' ∷ []

unfoldable pub is_memory_name : Bytes → Bool
is_memory_name name =
    bytes_eq name memory_name || bytes_eq (take 7 name) (memory_name ++ (b'@' ∷ []))

-- The variables of the loop of `parse_memory_map`.
pub record Walk : Type 0 where
  pub cur : ℕ
  pub depth : ℕ
  pub addr_cells : ℕ
  pub size_cells : ℕ
  pub in_memory : Bool
  pub map : MemoryMap

-- `(n + 3) & !3`.
abbrev pub aligned : ℕ → ℕ
aligned n = (n + 3) / 4 * 4

unfoldable pub begin_node : (name : Bytes) → Walk → Walk
begin_node name w = record w {
  cur = w.cur + aligned (length name + 1);
  in_memory = w.depth == 1 && is_memory_name name;
  depth = w.depth + 1;
}

unfoldable pub end_node : Walk → Walk
end_node w = record w { depth = w.depth - 1; in_memory = false }

-- The cell counts that a property of the root sets.
unfoldable pub set_cells : Ram → (pname : Bytes) → (prop_len at : ℕ) → Walk → Walk
set_cells r pname prop_len at w =
    if not (w.depth == 1)
    then w
    else if bytes_eq pname address_cells_name && prop_len == 4
    then record w { addr_cells = be32_at r at }
    else if bytes_eq pname size_cells_name && prop_len == 4
    then record w { size_cells = be32_at r at }
    else w

unfoldable pub property : Ram → (pname : Bytes) → (prop_len : ℕ) → Walk → Walk
property r pname prop_len w =
    let at = w.cur + 8 in
    let w' = set_cells r pname prop_len at (record w { cur = at + aligned prop_len }) in
    if w'.in_memory && bytes_eq pname reg_name
    then record w' { map = parse_reg r at prop_len w'.addr_cells w'.size_cells w'.map }
    else w'

-- The loop goes on, or it is over.
pub data Step : Type 0 where
  go_on : (w : Walk) → Step
  over : (map : MemoryMap) → Step

-- One round: the token at `cur` and what it takes. `fuel` is for strings.
unfoldable pub round : Ram → (fuel strings : ℕ) → Walk → Option Step
round r fuel strings w0 =
    let token = be32_at r w0.cur in
    let w : Walk = record w0 { cur = w0.cur + 4 } in
    let node : Option Step = elim (cstr_bytes r fuel w.cur) [
      | none ↦ none
      | some name ↦ some (go_on (begin_node name w))
    ] in
    let prop : Option Step = elim (cstr_bytes r fuel (strings + be32_at r (w.cur + 4))) [
      | none ↦ none
      | some pname ↦ some (go_on (property r pname (be32_at r w.cur) w))
    ] in
    if token == fdt_begin_node
    then node
    else if token == fdt_end_node
    then some (go_on (end_node w))
    else if token == fdt_prop
    then prop
    else if token == fdt_nop
    then some (go_on w)
    else some (over w.map)

unfoldable pub rounds : Ram → (fuel strings n : ℕ) → Walk → Option MemoryMap
rounds r fuel strings zero w = none
rounds r fuel strings (suc n) w = elim (round r fuel strings w) [
  | none ↦ none
  | some s ↦ elim s [ over map ↦ some map | go_on w' ↦ rounds r fuel strings n w' ]
]

unfoldable pub fallback : MemoryMap → MemoryMap
fallback map = add 0x80000000 (128 * 1024 * 1024) usable map

unfoldable pub parse_memory_map : Ram → (fuel fdt_base : ℕ) → Option MemoryMap
parse_memory_map r fuel fdt_base =
    let start : Walk = record {
      cur = fdt_base + be32_at r (fdt_base + 8);
      depth = 0;
      addr_cells = 2;
      size_cells = 2;
      in_memory = false;
      map = empty;
    } in
    let walked = rounds r fuel (fdt_base + be32_at r (fdt_base + 12)) fuel start in
    if fdt_base == 0 || not (be32_at r fdt_base == fdt_magic)
    then some (fallback empty)
    else elim walked [
      | none ↦ none
      | some map ↦ some (if map.count == 0 then fallback map else map)
    ]

-- A walk that has ended is the same with more fuel.
pub rounds-more :
    (r : Ram) (fuel strings n more : ℕ) (w : Walk) (map : MemoryMap)
    → n ≤ more
    → rounds r fuel strings n w ≡ some map
    → rounds r fuel strings more w ≡ some map
unfolding rounds
rounds-more r fuel strings zero more w map le h = absurd (cc h)
rounds-more r fuel strings (suc n) zero w map le h = absurd (omega (arith, le))
rounds-more r fuel strings (suc n) (suc more) w map le h =
    elim (Option-cases (round r fuel strings w)) [
      | inl e ↦ rw (e, rounds) (rw (e, rounds) at h)
      | inr (go_on w', e) ↦
          rw (e, rounds)
            (rounds-more r fuel strings n more w' map (omega (arith, le)) (rw (e, rounds) at h))
      | inr (over m, e) ↦ rw (e, rounds) (rw (e, rounds) at h)
    ]
