-- ===== src/Arch/Paging/Tree.antt =====
-- The tables of an address space form a tree of taken frames, and adding an empty table keeps this.
use ferrugem.Prelude.{
  ℕ, ◌+◌, ◌<◌, ◌≤◌, ◌≡◌, ◌≢◌, ◌⊎◌, inl, inr, true, false, ◌&&◌, Option, none, some, List, [], ◌∷◌,
  ◌++◌, if◌then◌else◌, ltb, lt→ltb, ltb→lt, Bool-cases, arith, refl, ap, ◌∙◌, sym, length,
  Option-cases, ℕ_discrete, length-append, subst,
}
use ferrugem.Machine.{Ram, read_u64}
use ferrugem.Machine.Frames.{Ready, Held, Fresh, Held-page}
use ferrugem.Memory.Pages.{Memory}
use ferrugem.Arch.Paging.{entry, has, target, table_entry, page_present, page_huge}
use ferrugem.Arch.Paging.Entries.{table_entry-add, target-add, has-present, has-huge-add}
use ferrugem.Arch.Paging.Walk.{
  step, walk, below, walk-through, walk-stop, walk-cong, walk-cons_none,
}

-- Every table up to the last level is a taken frame, and is reached by one path only.
pub record Tree (r : Ram) (s : Memory) (pml4 : ℕ) : Type 0 where
  pub ready : Ready s
  pub held : (p : List ℕ) (t : ℕ) → length p ≤ 3 → walk r false pml4 p ≡ some t → Held s t
  pub single :
      (p q : List ℕ) (t : ℕ)
      → length p ≤ 3
      → length q ≤ 3
      → walk r false pml4 p ≡ some t
      → walk r false pml4 q ≡ some t
      → p ≡ q

-- The entry `j` of a page table, if it is present.
unfoldable pub present_entry : Ram → (table j : ℕ) → Option ℕ
present_entry r table j =
    let e = read_u64 r (entry table j) in if ltb j 512 && has page_present e then some e else none

-- The present entry `j` of the table at the end of a path.
unfoldable pub leaf : Ram → (pml4 : ℕ) → List ℕ → (j : ℕ) → Option ℕ
leaf r pml4 p j = elim (walk r false pml4 p) [ none ↦ none | some t ↦ present_entry r t j ]

pub leaf-none :
    (r : Ram) (pml4 : ℕ) (p : List ℕ) (j : ℕ) → walk r false pml4 p ≡ none → leaf r pml4 p j ≡ none
unfolding leaf
leaf-none r pml4 p j e = rw (e, leaf)

pub leaf-some :
    (r : Ram) (pml4 : ℕ) (p : List ℕ) (j t : ℕ)
    → walk r false pml4 p ≡ some t
    → leaf r pml4 p j ≡ present_entry r t j
unfolding leaf
leaf-some r pml4 p j t e = rw (e, leaf)

pub present_entry-cong :
    (r r' : Ram) (t j : ℕ)
    → (j < 512 → read_u64 r' (entry t j) ≡ read_u64 r (entry t j))
    → present_entry r' t j ≡ present_entry r t j
unfolding present_entry
present_entry-cong r r' t j h = elim (Bool-cases (ltb j 512)) [
  | inl lt ↦ rw (h (ltb→lt j 512 lt))
  | inr ge ↦ rw ge
]

-- Whether a path goes on from `p` by the index `i`.
goes_on :
    (p : List ℕ) (i : ℕ) (q : List ℕ)
    → ((rest : List ℕ) × (q ≡ p ++ (i ∷ rest))) ⊎ ((rest : List ℕ) → q ≢ p ++ (i ∷ rest))
goes_on [] i [] = inr (λ rest. cc)
goes_on [] i (j ∷ q) = elim (ℕ_discrete j i) [
  | yes e ↦ inl (q, rw e)
  | no n ↦ inr (λ rest e. n (cc e))
]
goes_on (k ∷ p) i [] = inr (λ rest. cc)
goes_on (k ∷ p) i (j ∷ q) = elim (ℕ_discrete j k) [
  | yes e ↦ elim (goes_on p i q) [
    | inl (rest, f) ↦ inl (rest, rw (e, f))
    | inr away ↦ inr (λ rest f. away rest (cc f))
  ]
  | no n ↦ inr (λ rest e. n (cc e))
]

-- `r'` has the entry of a new and empty table, `new`, at the index `i` of the table `t`, and is
-- otherwise as `r` in all the tables that were taken before.
pub record Added (r r' : Ram) (s : Memory) (t i new : ℕ) : Type 0 where
  pub points : read_u64 r' (entry t i) ≡ table_entry new
  pub empty : (j : ℕ) → j < 512 → read_u64 r' (entry new j) ≡ 0
  pub others :
      (u j : ℕ)
      → Held s u
      → j < 512
      → ((u ≡ t) → (j ≡ i) → ⊥)
      → read_u64 r' (entry u j) ≡ read_u64 r (entry u j)

module _ (r r' : Ram) (s s' : Memory) (pml4 t i new : ℕ) (p₀ : List ℕ) (tree : Tree r s pml4)
    (reach : walk r false pml4 p₀ ≡ some t) (short : length p₀ ≤ 2) (in_table : i < 512)
    (absent : has page_present (read_u64 r (entry t i)) ≡ false) (added : Added r r' s t i new)
    (fresh : Fresh s s' new) where
  -- A path that does not take the new entry leads where it led.
  elsewhere :
      (p : List ℕ)
      → length p ≤ 3
      → ((rest : List ℕ) → p ≢ p₀ ++ (i ∷ rest))
      → walk r' false pml4 p ≡ walk r false pml4 p
  elsewhere p le away = walk-cong r r' false pml4 p (λ q j rest u split w lt.
      let shorter : length q ≤ 3 = omega (arith, ap length split, length-append q (j ∷ rest)) in
      added.others u j (tree.held q u shorter w) lt (λ e f.
        let same : q ≡ p₀ = tree.single q p₀ t shorter (omega arith) (rw e at w) reach in
        away rest (rw (same, f) at split)))

  step-absent : step r (below false p₀) t i ≡ none
  unfolding step
  step-absent = rw (absent, lt→ltb i 512 in_table)

  pub step-new : step r' (below false p₀) t i ≡ some new
  unfolding step
  step-new =
      let (aligned, small) = Held-page fresh.ready fresh.held in
      let e : read_u64 r' (entry t i) ≡ new + 7 = added.points ∙ table_entry-add new aligned in
      let present : has page_present (new + 7) ≡ true = has-present (new + 7) ∙ ground arith in
      let huge : has page_huge (new + 7) ≡ false = has-huge-add new aligned in
      let back : target (new + 7) ≡ new = target-add new 7 aligned (omega arith) small in
      rw (e, lt→ltb i 512 in_table, present, huge, back) (ground arith)

  -- A new table has no entries.
  step-empty : (j : ℕ) → step r' true new j ≡ none
  unfolding step
  step-empty j = elim (Bool-cases (ltb j 512)) [
    | inl lt ↦ rw (added.empty j (ltb→lt j 512 lt), has-present 0, lt)
    | inr ge ↦ rw ge
  ]

  no_entry : (j : ℕ) → present_entry r' new j ≡ none
  unfolding present_entry
  no_entry j = elim (Bool-cases (ltb j 512)) [
    | inl lt ↦ rw (added.empty j (ltb→lt j 512 lt), has-present 0, lt)
    | inr ge ↦ rw ge
  ]

  onward : (rest : List ℕ) → (rest ≡ []) ⊎ (walk r' true new rest ≡ none)
  onward [] = inl refl
  onward (j ∷ rest) = inr (walk-cons_none r' true new j rest (step-empty j))

  -- Where a path leads afterwards.
  walk-added :
      (p : List ℕ)
      → length p ≤ 3
      → ((p ≡ p₀ ++ (i ∷ [])) × (walk r' false pml4 p ≡ some new) × (walk r false pml4 p ≡ none))
        ⊎ (walk r' false pml4 p ≡ walk r false pml4 p)
  walk-added p le = elim (goes_on p₀ i p) [
    | inr away ↦ inr (elsewhere p le away)
    | inl (rest, split) ↦
        let stays : walk r' false pml4 p₀ ≡ some t =
          elsewhere p₀ (omega arith)
            (λ more e. omega (arith, ap length e, length-append p₀ (i ∷ more)))
          ∙ reach in
        let before : walk r false pml4 p ≡ none =
          ap (walk r false pml4) split ∙ walk-stop r false pml4 p₀ i t rest reach step-absent in
        let after : walk r' false pml4 p ≡ walk r' true new rest =
          ap (walk r' false pml4) split
          ∙ walk-through r' false pml4 p₀ i t new rest stays step-new in
        elim (onward rest) [
          | inl end ↦
              inl (rw end at split, after ∙ ap (walk r' true new) end ∙ unfold walk in refl, before)
          | inr none_left ↦ inr (after ∙ none_left ∙ sym before)
        ]
  ]

  held_kept : (p : List ℕ) (u : ℕ) → length p ≤ 3 → walk r false pml4 p ≡ some u → Held s' u
  held_kept p u le w = fresh.kept u (tree.held p u le w)

  -- The tables afterwards.
  pub Tree-added : Tree r' s' pml4
  Tree-added = record {
    ready = fresh.ready;
    held = λ p u le w. elim (walk-added p le) [
      | inl (_, at, _) ↦ let e : new ≡ u = cc (at, w) in subst (Held s') e fresh.held
      | inr same ↦ held_kept p u le (sym same ∙ w)
    ];
    single = λ p q u lp lq wp wq. elim (walk-added p lp) [
      | inl (ep, at, _) ↦ elim (walk-added q lq) [
        | inl (eq, _, _) ↦ ep ∙ sym eq
        | inr same ↦ absurd (fresh.unlike u (tree.held q u lq (sym same ∙ wq)) (cc (at, wp)))
      ]
      | inr same ↦ elim (walk-added q lq) [
        | inl (_, at, _) ↦ absurd (fresh.unlike u (tree.held p u lp (sym same ∙ wp)) (cc (at, wq)))
        | inr same' ↦ tree.single p q u lp lq (sym same ∙ wp) (sym same' ∙ wq)
      ]
    ];
  }

  -- The pages that were mapped stay mapped, and no other is.
  pub leaf-added : (p : List ℕ) (j : ℕ) → length p ≡ 3 → leaf r' pml4 p j ≡ leaf r pml4 p j
  leaf-added p j three = elim (walk-added p (omega arith)) [
    | inl (_, at, before) ↦
        leaf-some r' pml4 p j new at ∙ no_entry j ∙ sym (leaf-none r pml4 p j before)
    | inr same ↦ elim (Option-cases (walk r false pml4 p)) [
      | inl e ↦ leaf-none r' pml4 p j (same ∙ e) ∙ sym (leaf-none r pml4 p j e)
      | inr (u, e) ↦
          leaf-some r' pml4 p j u (same ∙ e)
          ∙ present_entry-cong r r' u j (λ lt.
            added.others u j (tree.held p u (omega arith) e) lt (λ f g. omega (
              arith,
              three,
              ap length (tree.single p p₀ t (omega arith) (omega arith) (rw f at e) reach),
            )))
          ∙ sym (leaf-some r pml4 p j u e)
    ]
  ]

  pub walk-new : walk r' false pml4 (p₀ ++ (i ∷ [])) ≡ some new
  walk-new =
      let stays : walk r' false pml4 p₀ ≡ some t =
        elsewhere p₀ (omega arith)
          (λ more e. omega (arith, ap length e, length-append p₀ (i ∷ more)))
        ∙ reach in
      walk-through r' false pml4 p₀ i t new [] stays step-new ∙ unfold walk in refl
