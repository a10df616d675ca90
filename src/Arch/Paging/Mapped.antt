-- ===== src/Arch/Paging/Mapped.antt =====
-- `map_user_page` against the processor's walk: the page that it maps, and the pages that it leaves.
use ferrugem.Prelude.{
  ℕ, ◌+◌, ◌*◌, ◌/◌, ◌%◌, ◌^◌, ◌<◌, ◌≤◌, ◌≡◌, inl, inr, Bool, true, false, Option, some, List, [],
  ◌∷◌, ltb, lt→ltb, Bool-cases, arith, refl, ap, ◌∙◌, sym, length, Option-cases, length-append,
  if◌then◌else◌,
}
use Prim.Native.Nat.{bit_or}
use ferrugem.Bits.Masks.{or-page, and-page, zero-or}
use ferrugem.Bits.{bit_not, test_bit, and-pow}
use ferrugem.Machine.{Ram, Machine, read_u64, on_ram}
use ferrugem.Machine.Words.{read-write_u64, read-write_u64_ne}
use ferrugem.Machine.Frames.{Held}
use ferrugem.Arch.Paging.{
  entry, has, target, page_present, set_leaf, flags_of, pml4_idx, pdpt_idx, pd_idx, pt_idx,
}
use ferrugem.Arch.Paging.Entries.{has-present}
use ferrugem.Arch.Paging.Walk.{walk, walk-cong}
use ferrugem.Arch.Paging.Tree.{Tree, leaf, present_entry, leaf-none, leaf-some, present_entry-cong}
use ferrugem.Arch.Paging.Map.{words_apart, Kept}

-- The flags of a mapping: present, and writable (2) and for user code (4) as the protection says in
-- its bits 1 and 3.
pub flag_bits : ℕ → ℕ
flag_bits prot = 1 + (if test_bit prot 1 then 2 else 0) + (if test_bit prot 3 then 4 else 0)

flags_of-bits : (prot : ℕ) → flags_of prot ≡ flag_bits prot
unfolding flags_of flag_bits
flags_of-bits prot =
    let w = and-pow prot 1 in
    let u = and-pow prot 3 in
    elim (Bool-cases (test_bit prot 1)) [
      | inl e ↦ elim (Bool-cases (test_bit prot 3)) [
        | inl f ↦ rw (w, u, e, f) refl
        | inr f ↦ rw (w, u, e, f) refl
      ]
      | inr e ↦ elim (Bool-cases (test_bit prot 3)) [
        | inl f ↦ rw (w, u, e, f) refl
        | inr f ↦ rw (w, u, e, f) refl
      ]
    ]

-- They are below 8, and the mapping is present.
flags_small : (prot : ℕ) → (flag_bits prot < 8) × (flag_bits prot % 2 ≡ 1)
unfolding flag_bits
flags_small prot = (ground arith, ground arith)

-- The entry that `map_user_page` writes.
abbrev pub mapping : (pa prot : ℕ) → ℕ
mapping pa prot = pa / 4096 * 4096 + flag_bits prot

mapping-written : (pa prot : ℕ) → pa < 2 ^ 64 → bit_or (target pa) (flags_of prot) ≡ mapping pa prot
unfolding target bit_not
mapping-written pa prot h =
    let (small, _) = flags_small prot in
    let e : pa / 4096 * 4096 + 0 ≡ pa / 4096 * 4096 = omega arith in
    let f : bit_or 0 (flag_bits prot) ≡ flag_bits prot = zero-or (flag_bits prot) in
    rw (and-page pa h, flags_of-bits prot)
      (rw (e, f) at
        (or-page (pa / 4096 * 4096) 0 (flag_bits prot) (omega arith) (omega arith) (omega arith)))

-- The path of an address, and its entry in the last table.
abbrev pub path : ℕ → List ℕ
path va = pml4_idx va ∷ pdpt_idx va ∷ pd_idx va ∷ []

abbrev pub entry_of : Ram → (pml4 va : ℕ) → Option ℕ
entry_of r pml4 va = leaf r pml4 (path va) (pt_idx va)

-- Two addresses of one page, of the 48 bits that are translated.
abbrev pub SamePage : (va va' : ℕ) → Type 0
SamePage va va' = va / 4096 % 2 ^ 36 ≡ va' / 4096 % 2 ^ 36

SamePage-indices : (va va' : ℕ) → path va ≡ path va' → pt_idx va ≡ pt_idx va' → SamePage va va'
SamePage-indices va va' e f =
    let e4 : pml4_idx va ≡ pml4_idx va' = cc e in
    let e3 : pdpt_idx va ≡ pdpt_idx va' = cc e in
    let e2 : pd_idx va ≡ pd_idx va' = cc e in omega arith

module _ (m : Machine) (pml4 pt va pa prot : ℕ) (p : List ℕ) (tree : Tree m.ram m.memory pml4)
    (reach : walk m.ram false pml4 p ≡ some pt) (three : length p ≡ 3) (word : pa < 2 ^ 64) where
  abbrev r' : Ram
  r' = (set_leaf pt va pa prot m).ram

  same_word :
      (u j : ℕ)
      → Held m.memory u
      → j < 512
      → ((u ≡ pt) → (j ≡ pt_idx va) → ⊥)
      → read_u64 r' (entry u j) ≡ read_u64 m.ram (entry u j)
  unfolding set_leaf on_ram
  same_word u j hu lj ne =
      read-write_u64_ne (entry pt (pt_idx va)) (entry u j) _ m.ram
        (words_apart j (pt_idx va) hu (tree.held p pt (omega arith) reach) lj (omega arith) ne)

  written : read_u64 r' (entry pt (pt_idx va)) ≡ mapping pa prot
  unfolding set_leaf on_ram
  written =
      let (small, _) = flags_small prot in
      rw (mapping-written pa prot word)
        (read-write_u64 (entry pt (pt_idx va)) (mapping pa prot) m.ram (omega arith))

  same_walk : (q : List ℕ) → length q ≤ 3 → walk r' false pml4 q ≡ walk m.ram false pml4 q
  same_walk q le = walk-cong m.ram r' false pml4 q (λ q' j rest u split w lt.
      let shorter : length q' ≤ 2 = omega (arith, ap length split, length-append q' (j ∷ rest)) in
      same_word u j (tree.held q' u (omega arith) w) lt (λ e _. omega (
        arith,
        three,
        ap length (tree.single q' p pt (omega arith) (omega arith) (rw e at w) reach),
      )))

  Tree-set_leaf : Tree r' m.memory pml4
  Tree-set_leaf = record {
    ready = tree.ready;
    held = λ q t le w. tree.held q t le (sym (same_walk q le) ∙ w);
    single = λ q q' t l l' w w'.
        tree.single q q' t l l' (sym (same_walk q l) ∙ w) (sym (same_walk q' l') ∙ w');
  }

  leaf-set_leaf : leaf r' pml4 p (pt_idx va) ≡ some (mapping pa prot)
  unfolding present_entry
  leaf-set_leaf =
      let (_, odd) = flags_small prot in
      let present : has page_present (mapping pa prot) ≡ true =
        has-present (mapping pa prot) ∙ ground arith in
      let inside : ltb (pt_idx va) 512 ≡ true = lt→ltb (pt_idx va) 512 (omega arith) in
      leaf-some r' pml4 p (pt_idx va) pt (same_walk p (omega arith) ∙ reach)
      ∙ rw (written, present, inside)

  other_leaf :
      (q : List ℕ) (j : ℕ)
      → length q ≡ 3
      → ((q ≡ p) → (j ≡ pt_idx va) → ⊥)
      → leaf r' pml4 q j ≡ leaf m.ram pml4 q j
  other_leaf q j l ne = elim (Option-cases (walk m.ram false pml4 q)) [
    | inl e ↦
        leaf-none r' pml4 q j (same_walk q (omega arith) ∙ e) ∙ sym (leaf-none m.ram pml4 q j e)
    | inr (u, e) ↦
        leaf-some r' pml4 q j u (same_walk q (omega arith) ∙ e)
        ∙ present_entry-cong m.ram r' u j (λ lt.
          same_word u j (tree.held q u (omega arith) e) lt
            (λ f g. ne (tree.single q p pt (omega arith) (omega arith) (rw f at e) reach) g))
        ∙ sym (leaf-some m.ram pml4 q j u e)
  ]

-- What a call of `map_user_page` comes to.
abbrev pub Maps : Machine → (pml4 va pa prot : ℕ) → Bool × Machine → Type 0
Maps m pml4 va pa prot (mapped, m') =
    Tree m'.ram m'.memory pml4
    × ((mapped ≡ true) → entry_of m'.ram pml4 va ≡ some (mapping pa prot))
    × ((va' : ℕ)
        → ((mapped ≡ true) → SamePage va' va → ⊥)
        → entry_of m'.ram pml4 va' ≡ entry_of m.ram pml4 va')

mapped :
    (m m' : Machine) (pml4 pt va pa prot : ℕ)
    → pa < 2 ^ 64
    → Kept m m' pml4
    → walk m'.ram false pml4 (path va) ≡ some pt
    → Maps m pml4 va pa prot (true, set_leaf pt va pa prot m')
unfolding on_ram set_leaf
mapped m m' pml4 pt va pa prot word k reach = (
  Tree-set_leaf m' pml4 pt va pa prot (path va) k.tree reach refl word,
  λ _. leaf-set_leaf m' pml4 pt va pa prot (path va) k.tree reach refl word,
  λ va' away.
      other_leaf m' pml4 pt va pa prot (path va) k.tree reach refl word (path va') (pt_idx va') refl
        (λ e f. away refl (SamePage-indices va' va e f))
      ∙ k.leaves (path va') (pt_idx va') refl,
)
