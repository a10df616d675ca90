-- ===== src/Vfs/Path.antt =====
-- Paths and names, as kernel/src/vfs/ramfs.rs cuts them up. A string is the list of its bytes; the
-- separator and the dot are ASCII, so cutting bytes is cutting characters.
use ferrugem.Prelude.{
  ℕ, ◌+◌, Bool, true, false, ◌&&◌, Option, none, some, List, [], ◌∷◌, ◌==◌, if◌then◌else◌, take,
  drop,
}

abbrev pub Bytes : Type 0
Bytes = List ℕ

abbrev pub slash : ℕ
slash = 47

-- "."
abbrev pub dot : Bytes
dot = 46 ∷ []

-- ".."
abbrev pub dot_dot : Bytes
dot_dot = 46 ∷ 46 ∷ []

abbrev pub is_nil : Bytes → Bool
is_nil [] = true
is_nil (c ∷ cs) = false

unfoldable pub bytes_eq : Bytes → Bytes → Bool
bytes_eq [] [] = true
bytes_eq [] (d ∷ ds) = false
bytes_eq (c ∷ cs) [] = false
bytes_eq (c ∷ cs) (d ∷ ds) = c == d && bytes_eq cs ds

abbrev pub is_absolute : Bytes → Bool
is_absolute [] = false
is_absolute (c ∷ cs) = c == slash

-- `trim_start_matches('/')`.
unfoldable pub trim_start : Bytes → Bytes
trim_start [] = []
trim_start (c ∷ cs) = let rest = trim_start cs in if c == slash then rest else c ∷ cs

-- `trim_end_matches('/')`.
unfoldable pub trim_end : Bytes → Bytes
trim_end [] = []
trim_end (c ∷ cs) = let rest = trim_end cs in if c == slash && is_nil rest then [] else c ∷ rest

abbrev onto_first : ℕ → List Bytes → List Bytes
onto_first c [] = (c ∷ []) ∷ []
onto_first c (part ∷ parts) = (c ∷ part) ∷ parts

-- `split('/')`: two separators in a row give an empty part.
unfoldable pub split : Bytes → List Bytes
split [] = [] ∷ []
split (c ∷ cs) = let parts = split cs in if c == slash then [] ∷ parts else onto_first c parts

-- `rfind('/')`.
unfoldable pub rfind : Bytes → Option ℕ
rfind [] = none
rfind (c ∷ cs) = elim (rfind cs) [
  | some i ↦ some (i + 1)
  | none ↦ if c == slash then some 0 else none
]

unfoldable pub split_parent : Bytes → Bytes × Bytes
unfolding trim_end rfind
split_parent path =
    let trimmed = trim_end path in
    elim (rfind trimmed) [
      | none ↦ ([], trimmed)
      | some sep ↦ (if sep == 0 then slash ∷ [] else take sep trimmed, drop (sep + 1) trimmed)
    ]
