-- ===== src/Slab/Lists.antt =====
-- The free lists: what a cache holds, and that blocks come back in the order of a stack.
use ferrugem.Prelude.{
  ℕ, ◌+◌, ◌^◌, ◌<◌, ◌≤◌, ◌≡◌, ◌≢◌, ◌⊎◌, max, refl, sym, ap, ◌∙◌, arith, some, List, [], ◌∷◌, ◌==◌,
  if◌then◌else◌, length, get_or-set_self, get_or-set_ne, ℕ_discrete, ==_refl, subst, length-set,
  false,
}
use ferrugem.Machine.{Ram, read_u64, write_u64, on_ram}
use ferrugem.Machine.Words.{read-write_u64, read-write_u64_ne}
use ferrugem.Slab.{
  Slab, Cache, empty, cache_at, set_head, class_index, alloc, dealloc, pop_block, push_block,
}

-- The blocks of a free list that starts at `head`.
abbrev pub Chain : Ram → (head : ℕ) → List ℕ → Type 0
Chain r head [] = head ≡ 0
Chain r head (b ∷ bs) = (head ≡ b) × (b ≢ 0) × Chain r (read_u64 r b) bs

-- The first words of two blocks do not overlap.
abbrev pub Apart : (a b : ℕ) → Type 0
Apart a b = (b + 8 ≤ a) ⊎ (a + 8 ≤ b)

abbrev pub AllApart : ℕ → List ℕ → Type 0
AllApart a [] = Unit
AllApart a (b ∷ bs) = Apart a b × AllApart a bs

-- A write elsewhere leaves a free list.
pub Chain-write :
    (a v : ℕ) (r : Ram) (head : ℕ) (bs : List ℕ)
    → AllApart a bs
    → Chain r head bs
    → Chain (write_u64 a v r) head bs
Chain-write a v r head [] away c = c
Chain-write a v r head (b ∷ bs) (away, rest) (at, ne, c) =
    (at, ne, rw (read-write_u64_ne a b v r away) (Chain-write a v r (read_u64 r b) bs rest c))

-- Each cache's free list, by the number of its class.
abbrev pub Holds : Slab → (ℕ → List ℕ) → Type 0
Holds s free = (i : ℕ) → Chain s.machine.ram (cache_at s i).head (free i)

-- The lists with one of them changed.
abbrev pub with_list : (idx : ℕ) → List ℕ → (ℕ → List ℕ) → ℕ → List ℕ
with_list idx bs free i = if i == idx then bs else free i

head_self :
    (idx head : ℕ) (s : Slab)
    → idx < length s.caches
    → (cache_at (set_head idx head s) idx).head ≡ head
head_self idx head s h =
    ap (λ (c : Cache). c.head)
      (get_or-set_self s.caches idx (record (cache_at s idx) { head = head }) empty h)

head_ne :
    (idx head i : ℕ) (s : Slab)
    → i ≢ idx
    → (cache_at (set_head idx head s) i).head ≡ (cache_at s i).head
head_ne idx head i s ne =
    ap (λ (c : Cache). c.head)
      (get_or-set_ne s.caches idx i (record (cache_at s idx) { head = head }) empty
        (λ e. ne (sym e)))

-- A new head of one list, over a memory that keeps the other lists.
Holds-set_head :
    (idx head : ℕ) (s : Slab) (free : ℕ → List ℕ) (bs : List ℕ)
    → idx < length s.caches
    → ((i : ℕ) → i ≢ idx → Chain s.machine.ram (cache_at s i).head (free i))
    → Chain s.machine.ram head bs
    → Holds (set_head idx head s) (with_list idx bs free)
Holds-set_head idx head s free bs h others c i = elim (ℕ_discrete i idx) [
  | yes e ↦
      rw (e, ==_refl idx) (subst (λ k. Chain s.machine.ram k bs) (sym (head_self idx head s h)) c)
  | no ne ↦
      let other : (i == idx) ≡ false = ground arith in
      rw other
        (subst (λ k. Chain s.machine.ram k (free i)) (sym (head_ne idx head i s ne)) (others i ne))
]

push_block-Holds :
    (idx ptr : ℕ) (s : Slab) (free : ℕ → List ℕ)
    → idx < length s.caches
    → ptr ≢ 0
    → (cache_at s idx).head < 2 ^ 64
    → ((i : ℕ) → AllApart ptr (free i))
    → Holds s free
    → Holds (push_block idx ptr s) (with_list idx (ptr ∷ free idx) free)
unfolding push_block on_ram
push_block-Holds idx ptr s free h ne word away holds =
    let old = (cache_at s idx).head in
    let r' = write_u64 ptr old s.machine.ram in
    let s' = record s { machine = record s.machine { ram = r' } } in
    Holds-set_head idx ptr s' free (ptr ∷ free idx) h
      (λ i _. Chain-write ptr old s.machine.ram (cache_at s i).head (free i) (away i) (holds i))
      (
        refl,
        ne,
        rw (read-write_u64 ptr old s.machine.ram word)
            (Chain-write ptr old s.machine.ram old (free idx) (away idx) (holds idx)),
      )

pop_block-Holds :
    (idx b : ℕ) (bs : List ℕ) (s : Slab) (free : ℕ → List ℕ)
    → idx < length s.caches
    → Holds s free
    → Chain s.machine.ram (cache_at s idx).head (b ∷ bs)
    → ((pop_block idx s).0 ≡ b) × Holds (pop_block idx s).1 (with_list idx bs free)
unfolding pop_block
pop_block-Holds idx b bs s free h holds (at, ne, c) = (
  at,
  Holds-set_head idx (read_u64 s.machine.ram (cache_at s idx).head) s free bs h (λ i _. holds i)
      (rw at c),
)

push_block-length :
    (idx ptr : ℕ) (s : Slab) → idx < length s.caches → idx < length (push_block idx ptr s).caches
unfolding push_block
push_block-length idx ptr s h =
    omega (arith, length-set s.caches idx (record (cache_at s idx) { head = ptr }))

dealloc-push_block :
    (ptr size idx : ℕ) (s : Slab)
    → class_index (max size 8) ≡ some idx
    → ptr ≢ 0
    → dealloc ptr size s ≡ push_block idx ptr s
unfolding dealloc
dealloc-push_block ptr size idx s class ne =
    let nz : (ptr == 0) ≡ false = ground arith in rw (nz, class)

alloc-pop_block :
    (size idx : ℕ) (s : Slab)
    → class_index (max size 8) ≡ some idx
    → (cache_at s idx).head ≢ 0
    → alloc size s ≡ pop_block idx s
unfolding alloc
alloc-pop_block size idx s class ne =
    let nz : ((cache_at s idx).head == 0) ≡ false = ground arith in rw (class, alloc, nz)

-- Changing a list and changing it back.
Holds-back :
    (idx : ℕ) (bs : List ℕ) (s : Slab) (free : ℕ → List ℕ)
    → Holds s (with_list idx (free idx) (with_list idx bs free))
    → Holds s free
Holds-back idx bs s free holds i = elim (ℕ_discrete i idx) [
  | yes e ↦ rw e (rw (e, ==_refl idx) at (holds i))
  | no ne ↦ let other : (i == idx) ≡ false = ground arith in rw other at (holds i)
]

-- For a size with a class, and a pointer that is not null and whose word overlaps no free block's:
-- `dealloc` puts the block in front of its class's free list and keeps the other lists, and an `alloc`
-- of that size then returns this block and leaves all the free lists as they were before.
pub alloc-dealloc :
    (ptr size idx : ℕ) (s : Slab) (free : ℕ → List ℕ)
    → class_index (max size 8) ≡ some idx
    → idx < length s.caches
    → ptr ≢ 0
    → (cache_at s idx).head < 2 ^ 64
    → ((i : ℕ) → AllApart ptr (free i))
    → Holds s free
    → let s' = dealloc ptr size s in
      Holds s' (with_list idx (ptr ∷ free idx) free)
      × ((alloc size s').0 ≡ ptr)
      × Holds (alloc size s').1 free
alloc-dealloc ptr size idx s free class h ne word away holds =
    let s' = push_block idx ptr s in
    let pushed = push_block-Holds idx ptr s free h ne word away holds in
    let front : Chain s'.machine.ram (cache_at s' idx).head (ptr ∷ free idx) =
      rw (==_refl idx) at (pushed idx) in
    let head : (cache_at s' idx).head ≡ ptr = front.0 in
    let popped =
      pop_block-Holds idx ptr (free idx) s' (with_list idx (ptr ∷ free idx) free)
        (push_block-length idx ptr s h) pushed front in
    rw
      (
        dealloc-push_block ptr size idx s class ne,
        alloc-pop_block size idx s' class (λ e. ne (sym head ∙ e)),
      )
      (pushed, popped.0, Holds-back idx (ptr ∷ free idx) (pop_block idx s').1 free popped.1)
