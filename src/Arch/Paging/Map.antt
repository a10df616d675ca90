-- ===== src/Arch/Paging/Map.antt =====
-- `map_user_page` on a tree of tables.
use ferrugem.Prelude.{
  ℕ, ◌+◌, ◌<◌, ◌≤◌, ◌≡◌, ◌≢◌, ◌⊎◌, inl, inr, Bool, true, false, ◌&&◌, Option, none, some, List, [],
  ◌∷◌, ◌++◌, if◌then◌else◌, lt→ltb, Bool-cases, arith, refl, ◌∙◌, sym, length, Option-cases, dec_lt,
}
use ferrugem.Machine.{Ram, Machine, read_u64, write_u64, zero_fill, on_ram, alloc_pages}
use ferrugem.Machine.Words.{
  read-write_u64, read-write_u64_ne, read_u64-zero_fill, read_u64-zero_fill_ne,
}
use ferrugem.Machine.Frames.{
  Held, Fresh, Held-page, Held-apart, alloc_pages-Fresh, alloc_pages-none, ram-alloc_pages,
}
use ferrugem.Memory.Pages.{Memory}
use ferrugem.Arch.Paging.{entry, has, target, table_entry, page_present, page_huge, next_table}
use ferrugem.Arch.Paging.Entries.{table_entry-add}
use ferrugem.Arch.Paging.Walk.{step, walk, below, walk-through}
use ferrugem.Arch.Paging.Tree.{Tree, leaf, Added, Tree-added, leaf-added, walk-new}

-- Two words of tables do not overlap, unless they are the same word.
pub words_apart :
    {s : Memory} {a b : ℕ} (i j : ℕ)
    → Held s a
    → Held s b
    → i < 512
    → j < 512
    → ((a ≡ b) → (i ≡ j) → ⊥)
    → (entry a i + 8 ≤ entry b j) ⊎ (entry b j + 8 ≤ entry a i)
words_apart i j ha hb li lj ne = elim (Held-apart ha hb) [
  | inl same ↦ elim (dec_lt i j) [
    | yes lt ↦ inl (omega (arith, same))
    | no ge ↦ elim (dec_lt j i) [
      | yes gt ↦ inr (omega (arith, same))
      | no le ↦ absurd (ne same (omega arith))
    ]
  ]
  | inr (inl h) ↦ inl (omega arith)
  | inr (inr h) ↦ inr (omega arith)
]

page_apart :
    {s : Memory} {a b : ℕ} (i : ℕ)
    → Held s a
    → Held s b
    → i < 512
    → a ≢ b
    → (entry a i + 8 ≤ b) ⊎ (b + 4096 ≤ entry a i)
page_apart i ha hb lt ne = elim (Held-apart ha hb) [
  | inl same ↦ absurd (ne same)
  | inr (inl h) ↦ inl (omega arith)
  | inr (inr h) ↦ inr (omega arith)
]

pub Added-write :
    (r : Ram) (s s' : Memory) (t i new : ℕ)
    → Held s t
    → i < 512
    → Fresh s s' new
    → Added r (write_u64 (entry t i) (table_entry new) (zero_fill new 4096 r)) s t i new
Added-write r s s' t i new ht lt fresh =
    let (aligned, small) = Held-page fresh.ready fresh.held in
    let ht' = fresh.kept t ht in
    let z = zero_fill new 4096 r in
    record {
      points =
          read-write_u64 (entry t i) (table_entry new) z
            (omega (arith, table_entry-add new aligned));
      empty = λ j lj.
          read-write_u64_ne (entry t i) (entry new j) (table_entry new) z
            (words_apart j i fresh.held ht' lj lt (λ e _. fresh.unlike t ht (sym e)))
          ∙ read_u64-zero_fill new 4096 (entry new j) r (omega arith) (omega arith);
      others = λ u j hu lj ne.
          read-write_u64_ne (entry t i) (entry u j) (table_entry new) z
            (words_apart j i (fresh.kept u hu) ht' lj lt ne)
          ∙ read_u64-zero_fill_ne new 4096 (entry u j) r
              (page_apart j (fresh.kept u hu) fresh.held lj (fresh.unlike u hu));
    }

-- What a step down the tables does in its cases.
module _ (b : Bool) (t i : ℕ) (m : Machine) where
  next-present :
      has page_present (read_u64 m.ram (entry t i)) ≡ true
      → next_table b t i m ≡ (
          if b && has page_huge (read_u64 m.ram (entry t i))
          then (none, m)
          else (some (target (read_u64 m.ram (entry t i))), m))
  unfolding next_table
  next-present e = rw e

  next-full :
      has page_present (read_u64 m.ram (entry t i)) ≡ false
      → (alloc_pages 1 m).0 ≡ none
      → next_table b t i m ≡ (none, (alloc_pages 1 m).1)
  unfolding next_table
  next-full e f = rw (e, f)

  next-made :
      (new : ℕ)
      → has page_present (read_u64 m.ram (entry t i)) ≡ false
      → (alloc_pages 1 m).0 ≡ some new
      → next_table b t i m ≡ (
        some new,
        on_ram
            (λ r. write_u64 (entry t i) (table_entry new) (zero_fill new 4096 r))
            (alloc_pages 1 m).1,
      )
  unfolding next_table
  next-made new e f = rw (e, f)

-- A tree of tables afterwards, with the same pages mapped.
pub record Kept (m m' : Machine) (pml4 : ℕ) : Type 0 where
  pub tree : Tree m'.ram m'.memory pml4
  pub leaves : (p : List ℕ) (j : ℕ) → length p ≡ 3 → leaf m'.ram pml4 p j ≡ leaf m.ram pml4 p j

-- A table that was found is the one at the end of the longer path.
abbrev pub Reaches : Option ℕ × Machine → (pml4 : ℕ) → List ℕ → Type 0
Reaches (found, m') pml4 p = (t : ℕ) → found ≡ some t → walk m'.ram false pml4 p ≡ some t

module _ (m : Machine) (pml4 t i : ℕ) (p : List ℕ) (tree : Tree m.ram m.memory pml4)
    (reach : walk m.ram false pml4 p ≡ some t) (short : length p ≤ 2) (in_table : i < 512) where
  step_there :
      (u : ℕ)
      → has page_present (read_u64 m.ram (entry t i)) ≡ true
      → (below false p && has page_huge (read_u64 m.ram (entry t i))) ≡ false
      → target (read_u64 m.ram (entry t i)) ≡ u
      → step m.ram (below false p) t i ≡ some u
  unfolding step
  step_there u e small at = rw (e, small, lt→ltb i 512 in_table, at)

  next_present_lem :
      has page_present (read_u64 m.ram (entry t i)) ≡ true
      → let after = next_table (below false p) t i m in
        Kept m after.1 pml4 × Reaches after pml4 (p ++ (i ∷ []))
  next_present_lem e =
      elim (Bool-cases (below false p && has page_huge (read_u64 m.ram (entry t i)))) [
        | inl huge ↦
            rw (next-present (below false p) t i m e, huge)
              (record { tree = tree; leaves = λ q j three. refl }, λ u f. absurd (cc f))
        | inr small ↦
            rw (next-present (below false p) t i m e, small)
              (
                record { tree = tree; leaves = λ q j three. refl },
                λ u f.
                    walk-through m.ram false pml4 p i t u [] reach (step_there u e small (cc f))
                    ∙ unfold walk in refl,
              )
      ]

  next_absent_lem :
      has page_present (read_u64 m.ram (entry t i)) ≡ false
      → let after = next_table (below false p) t i m in
        Kept m after.1 pml4 × Reaches after pml4 (p ++ (i ∷ []))
  unfolding on_ram
  next_absent_lem e = elim (Option-cases (alloc_pages 1 m).0) [
    | inl full ↦
        rw (next-full (below false p) t i m e full, alloc_pages-none m tree.ready full)
          (record { tree = tree; leaves = λ q j three. refl }, λ u f. absurd (cc f))
    | inr (new, made) ↦
        let fresh = alloc_pages-Fresh m new tree.ready made in
        let added =
          Added-write m.ram m.memory (alloc_pages 1 m).1.memory t i new
            (tree.held p t (omega arith) reach) in_table fresh in
        let r' = write_u64 (entry t i) (table_entry new) (zero_fill new 4096 m.ram) in
        let s' = (alloc_pages 1 m).1.memory in
        rw (next-made (below false p) t i m new e made, ram-alloc_pages m)
          (
            record {
              tree =
                  Tree-added m.ram r' m.memory s' pml4 t i new p tree reach short in_table e added
                    fresh;
              leaves =
                  leaf-added m.ram r' m.memory s' pml4 t i new p tree reach short in_table e added
                    fresh;
            },
            λ u f.
                walk-new m.ram r' m.memory s' pml4 t i new p tree reach short in_table e added fresh
                ∙ f,
          )
  ]

  -- A step down the tables keeps the tree and the mapped pages, and comes to the table that the
  -- processor finds there.
  pub next_table_lem :
      let after = next_table (below false p) t i m in
      Kept m after.1 pml4 × Reaches after pml4 (p ++ (i ∷ []))
  next_table_lem = elim (Bool-cases (has page_present (read_u64 m.ram (entry t i)))) [
    | inl e ↦ next_present_lem e
    | inr e ↦ next_absent_lem e
  ]
