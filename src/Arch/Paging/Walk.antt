-- ===== src/Arch/Paging/Walk.antt =====
-- The walk of a translation down the tables, as the processor does it, and memory that leaves it
-- unchanged. A path is the list of the indices taken from the root.
use ferrugem.Prelude.{
  ℕ, ◌<◌, ◌≡◌, Bool, true, not, ◌&&◌, Option, none, some, List, [], ◌∷◌, ◌++◌, if◌then◌else◌, ltb,
  refl, ap, ◌∙◌, sym, Option-cases, Bool-cases, ltb→lt, inl, inr,
}
use ferrugem.Machine.{Ram, read_u64}
use ferrugem.Arch.Paging.{entry, has, target, page_present, page_huge}

-- The table that an entry of a table points to. There is none past a huge page.
unfoldable pub step : Ram → (below_root : Bool) → (table idx : ℕ) → Option ℕ
step r below_root table idx =
    let e = read_u64 r (entry table idx) in
    if ltb idx 512 && has page_present e && not (below_root && has page_huge e)
    then some (target e)
    else none

unfoldable pub walk : Ram → (below_root : Bool) → (table : ℕ) → List ℕ → Option ℕ
walk r b table [] = some table
walk r b table (i ∷ p) = elim (step r b table i) [ none ↦ none | some t ↦ walk r true t p ]

-- Whether the table at the end of a path lies below the root.
abbrev pub below : Bool → List ℕ → Bool
below b [] = b
below b (i ∷ p) = true

below-true : (p : List ℕ) → below true p ≡ true
below-true [] = refl
below-true (i ∷ p) = refl

step-cong :
    (r r' : Ram) (b : Bool) (t i : ℕ)
    → (i < 512 → read_u64 r' (entry t i) ≡ read_u64 r (entry t i))
    → step r' b t i ≡ step r b t i
unfolding step
step-cong r r' b t i h = elim (Bool-cases (ltb i 512)) [
  | inl lt ↦ rw (h (ltb→lt i 512 lt))
  | inr ge ↦ rw ge
]

pub walk-cons_none :
    (r : Ram) (b : Bool) (t i : ℕ) (p : List ℕ) → step r b t i ≡ none → walk r b t (i ∷ p) ≡ none
unfolding walk
walk-cons_none r b t i p e = rw (e, walk)

pub walk-cons_some :
    (r : Ram) (b : Bool) (t i : ℕ) (p : List ℕ) (t' : ℕ)
    → step r b t i ≡ some t'
    → walk r b t (i ∷ p) ≡ walk r true t' p
unfolding walk
walk-cons_some r b t i p t' e = rw (e, walk)

-- A walk that takes the index `i` at a table that it has come to.
pub walk-through :
    (r : Ram) (b : Bool) (t : ℕ) (p : List ℕ) (i t' u : ℕ) (rest : List ℕ)
    → walk r b t p ≡ some t'
    → step r (below b p) t' i ≡ some u
    → walk r b t (p ++ (i ∷ rest)) ≡ walk r true u rest
walk-through r b t [] i t' u rest w e =
    let at : t ≡ t' = unfold walk in cc w in walk-cons_some r b t i rest u (rw at e)
walk-through r b t (j ∷ p) i t' u rest w e = elim (Option-cases (step r b t j)) [
  | inl none_left ↦ absurd (cc (walk-cons_none r b t j p none_left, w))
  | inr (v, f) ↦
      walk-cons_some r b t j (p ++ (i ∷ rest)) v f
      ∙ walk-through r true v p i t' u rest (sym (walk-cons_some r b t j p v f) ∙ w)
          (rw (below-true p) e)
]

pub walk-stop :
    (r : Ram) (b : Bool) (t : ℕ) (p : List ℕ) (i t' : ℕ) (rest : List ℕ)
    → walk r b t p ≡ some t'
    → step r (below b p) t' i ≡ none
    → walk r b t (p ++ (i ∷ rest)) ≡ none
walk-stop r b t [] i t' rest w e =
    let at : t ≡ t' = unfold walk in cc w in walk-cons_none r b t i rest (rw at e)
walk-stop r b t (j ∷ p) i t' rest w e = elim (Option-cases (step r b t j)) [
  | inl none_left ↦ walk-cons_none r b t j (p ++ (i ∷ rest)) none_left
  | inr (v, f) ↦
      walk-cons_some r b t j (p ++ (i ∷ rest)) v f
      ∙ walk-stop r true v p i t' rest (sym (walk-cons_some r b t j p v f) ∙ w)
          (rw (below-true p) e)
]

-- A walk whose entries read the same comes to the same table.
pub walk-cong :
    (r r' : Ram) (b : Bool) (t : ℕ) (p : List ℕ)
    → ((q : List ℕ) (i : ℕ) (rest : List ℕ) (t' : ℕ)
        → p ≡ q ++ (i ∷ rest)
        → walk r b t q ≡ some t'
        → i < 512
        → read_u64 r' (entry t' i) ≡ read_u64 r (entry t' i))
    → walk r' b t p ≡ walk r b t p
walk-cong r r' b t [] h = unfold walk in refl
walk-cong r r' b t (i ∷ p) h =
    let same : step r' b t i ≡ step r b t i =
      step-cong r r' b t i (λ lt. h [] i p t refl (unfold walk in refl) lt) in
    elim (Option-cases (step r b t i)) [
      | inl e ↦ walk-cons_none r' b t i p (same ∙ e) ∙ sym (walk-cons_none r b t i p e)
      | inr (t', e) ↦
          walk-cons_some r' b t i p t' (same ∙ e)
          ∙ walk-cong r r' true t' p (λ q j rest u split reach.
            h (i ∷ q) j rest u (ap (◌∷◌ i) split) (walk-cons_some r b t i q t' e ∙ reach))
          ∙ sym (walk-cons_some r b t i p t' e)
    ]
