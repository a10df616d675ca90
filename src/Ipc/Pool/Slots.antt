-- ===== src/Ipc/Pool/Slots.antt =====
-- What each operation of the pool does, slot by slot.
use ferrugem.Prelude.{
  ℕ, zero, suc, ◌+◌, ◌<◌, ◌≡◌, refl, true, false, ◌&&◌, Option, none, some, [], ◌∷◌, ◌==◌,
  if◌then◌else◌, set, length, arith, ℕ_discrete, ◌⊎◌, inl, inr, Bool-cases, length-set,
  get_or-set_self, get_or-set_ne, ◌≢◌, ap, [],
}
use ferrugem.Ipc.Pipe.Bulk.{IsValid, contents, new-IsValid, contents-new}
use ferrugem.Ipc.Pool.{
  Pool, PipeSlot, max_pipes, slot_at, new_slot, fresh_slot, alloc_from, alloc_pipe, update_slot,
}

-- A slot after a reference operation on pipe `idx`: changed if it is that pipe's, and in use.
pub slot_at-update :
    (f : PipeSlot → PipeSlot) (idx : ℕ) (pool : Pool) (i : ℕ)
    → length pool ≡ max_pipes
    → i < max_pipes
    → slot_at (update_slot f idx pool) i
      ≡ (if idx == i && (slot_at pool i).in_use then f (slot_at pool i) else slot_at pool i)
unfolding update_slot
slot_at-update f idx pool i len h = elim (ℕ_discrete idx i) [
  | yes e ↦ rw e (ground (arith, get_or-set_self pool i (f (slot_at pool i)) new_slot))
  | no ne ↦ ground (arith, get_or-set_ne pool idx i (f (slot_at pool idx)) new_slot ne)
]

pub length-update :
    (f : PipeSlot → PipeSlot) (idx : ℕ) (pool : Pool)
    → length (update_slot f idx pool) ≡ length pool
unfolding update_slot
length-update f idx pool = ground (arith, length-set pool idx (f (slot_at pool idx)))

-- What a search for a free slot can come to.
abbrev pub Full : Pool → Type 0
Full pool = (j : ℕ) → j < length pool → (slot_at pool j).in_use ≡ true

pub record FirstFree (pool : Pool) (k : ℕ) : Type 0 where
  pub inside : k < length pool
  pub free : (slot_at pool k).in_use ≡ false
  pub first : (j : ℕ) → j < k → (slot_at pool j).in_use ≡ true

abbrev Finds : Pool → ℕ → Option ℕ × Pool → Type 0
Finds pool i out =
    Full pool × (out ≡ (none, pool))
    ⊎ ((k : ℕ) × FirstFree pool k × (out ≡ (some (i + k), set pool k fresh_slot)))

Full-cons : (s : PipeSlot) (rest : Pool) → s.in_use ≡ true → Full rest → Full (s ∷ rest)
Full-cons s rest used all zero h = used
Full-cons s rest used all (suc j) h = all j (omega arith)

FirstFree-cons :
    (s : PipeSlot) (rest : Pool) (k : ℕ)
    → s.in_use ≡ true
    → FirstFree rest k
    → FirstFree (s ∷ rest) (suc k)
FirstFree-cons s rest k used f = record {
  inside = omega (arith, f.inside);
  free = f.free;
  first = before;
}
  where
    before : (j : ℕ) → j < suc k → (slot_at (s ∷ rest) j).in_use ≡ true
    before zero h = used
    before (suc j) h = f.first j (omega arith)

alloc_from-Finds : (pool : Pool) (i : ℕ) → Finds pool i (alloc_from pool i)
unfolding alloc_from
alloc_from-Finds [] i = inl (λ j h. elim h [ ], refl)
alloc_from-Finds (s ∷ rest) i = elim (Bool-cases s.in_use) [
  | inl used ↦ elim (alloc_from-Finds rest (i + 1)) [
    | inl (full, e) ↦ inl (Full-cons s rest used full, rw (used, e))
    | inr (k, found, e) ↦
        let shift : i + 1 + k ≡ i + suc k = omega arith in
        inr (suc k, FirstFree-cons s rest k used found, rw (used, e, shift))
  ]
  | inr free ↦
      let start : i + 0 ≡ i = omega arith in
      inr (
        0,
        record { inside = omega arith; free = free; first = λ j h. elim h [ ] },
        rw (free, start),
      )
]

-- A pipe with one reader and one writer, and no bytes.
pub record IsNew (slot : PipeSlot) : Type 0 where
  pub used : slot.in_use ≡ true
  pub one_reader : slot.read_count ≡ 1
  pub one_writer : slot.write_count ≡ 1
  pub valid : IsValid slot.pipe
  pub no_bytes : contents slot.pipe ≡ []

fresh_slot-IsNew : IsNew fresh_slot
unfolding fresh_slot
fresh_slot-IsNew = record {
  used = refl;
  one_reader = refl;
  one_writer = refl;
  valid = new-IsValid;
  no_bytes = contents-new;
}

-- What a call of `alloc_pipe` may come to.
abbrev pub Allocates : Pool → Option ℕ × Pool → Type 0
Allocates pool (found, pool') =
    (Full pool × (found ≡ none) × (pool' ≡ pool))
    ⊎ ((k : ℕ) × FirstFree pool k
        × (found ≡ some k)
        × (length pool' ≡ length pool)
        × IsNew (slot_at pool' k)
        × ((j : ℕ) → k ≢ j → slot_at pool' j ≡ slot_at pool j))

-- `alloc_pipe` fails only when every slot is in use, and then changes nothing; otherwise it takes the
-- first free slot, which then has one reader, one writer and an empty pipe, and changes no other.
pub alloc_pipe-Allocates : (pool : Pool) → Allocates pool (alloc_pipe pool)
unfolding alloc_pipe
alloc_pipe-Allocates pool = elim (alloc_from-Finds pool 0) [
  | inl (full, e) ↦ inl (full, cc e, cc e)
  | inr (k, first, e) ↦
      let found : (alloc_from pool 0).0 ≡ some k = rw e (ap some (omega arith)) in
      let after : (alloc_from pool 0).1 ≡ set pool k fresh_slot = rw e refl in
      inr (
        k,
        first,
        found,
        rw after (length-set pool k fresh_slot),
        rw (after, get_or-set_self pool k fresh_slot new_slot first.inside) fresh_slot-IsNew,
        λ j ne. rw after (get_or-set_ne pool k j fresh_slot new_slot ne),
      )
]
