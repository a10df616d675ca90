-- ===== src/Scheduler/Stack/Entries.antt =====
-- The auxiliary vector of kernel/src/scheduler/mod.rs as a program looks up its entries.
use ferrugem.Prelude.{ℕ, Option, none, some, List, [], ◌∷◌, ◌≡◌, refl, if◌then◌else◌, ◌==◌}
use ferrugem.Scheduler.Stack.{auxv}

-- The value that a program finds for an entry's type, searching up to the entry of type 0.
unfoldable pub entry : (key : ℕ) → List ℕ → Option ℕ
entry key [] = none
entry key (k ∷ []) = none
entry key (k ∷ v ∷ rest) =
    let later = entry key rest in if k == 0 then none else if k == key then some v else later

-- AT_PHDR, AT_PHENT, AT_PHNUM, AT_PAGESZ, AT_SECURE and AT_RANDOM, in whatever order they stand.
abbrev pub Describes : (phdr_va phentsize phnum rand_va : ℕ) → List ℕ → Type 0
Describes phdr_va phentsize phnum rand_va aux =
    (entry 3 aux ≡ some phdr_va)
    × (entry 4 aux ≡ some phentsize)
    × (entry 5 aux ≡ some phnum)
    × (entry 6 aux ≡ some 4096)
    × (entry 23 aux ≡ some 0)
    × (entry 25 aux ≡ some rand_va)

pub auxv-Describes :
    (phdr_va phentsize phnum rand_va : ℕ)
    → Describes phdr_va phentsize phnum rand_va (auxv phdr_va phentsize phnum rand_va)
unfolding entry
auxv-Describes phdr_va phentsize phnum rand_va = (refl, refl, refl, refl, refl, refl)
