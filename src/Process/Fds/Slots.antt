-- ===== src/Process/Fds/Slots.antt =====
-- Descriptors as a finite map: allocating, closing and looking up.
use ferrugem.Prelude.{
  ℕ, ◌-◌, ◌<◌, ◌≤◌, ◌≡◌, false, none, some, ◌==◌, if◌then◌else◌, set, length, arith,
  get_or-set_self, get_or-set_ne, find_in, First, find_in-some, find_in-none, Option-cases,
  ℕ_discrete, ◌⊎◌, inl, inr,
}
use ferrugem.Prelude.{zero, suc, ◌≢◌, refl, ap, true, Option, [], ◌∷◌, leb, dec_lt, Bool-cases}
use ferrugem.Process.Fds.{
  FdEntry, empty, stdin, stdout, stderr, dev_null, dev_zero, dev_urandom, vfs_file, vfs_dir,
  pipe_read, pipe_write, socket_pair, FdTable, max_fds, entry_at, is_empty, alloc, get, close,
}

pub entry_at-set :
    (t : FdTable) (i j : ℕ) (e : FdEntry)
    → i < length t
    → entry_at (set t i e) j ≡ (if i == j then e else entry_at t j)
entry_at-set t i j e h = elim (ℕ_discrete i j) [
  | yes same ↦ ground (arith, get_or-set_self t i e empty h)
  | no ne ↦ ground (arith, get_or-set_ne t i j e empty ne)
]

-- On a table of sixteen descriptors, `alloc` of an entry that is not empty fails only when every
-- descriptor from 3 on is taken, and then changes nothing. Otherwise it gives the lowest free one
-- from 3 on, at which `get` then finds the entry, and no other descriptor changes.
pub alloc_lem :
    (e : FdEntry) (t : FdTable)
    → length t ≡ max_fds
    → is_empty e ≡ false
    → (((j : ℕ) → 3 ≤ j → j < max_fds → is_empty (entry_at t j) ≡ false) × (alloc e t ≡ (none, t)))
      ⊎ ((fd : ℕ) × First 3 (max_fds - 3) (λ i. is_empty (entry_at t i)) fd
          × ((alloc e t).0 ≡ some fd)
          × ((j : ℕ) → get j (alloc e t).1 ≡ (if fd == j then some e else get j t)))
unfolding alloc get
alloc_lem e t len full =
    elim (Option-cases (find_in 3 (max_fds - 3) (λ i. is_empty (entry_at t i)))) [
      | inl missing ↦ inl (λ j lo hi. find_in-none 3 13 _ missing j lo hi, rw (missing, alloc))
      | inr (fd, found) ↦
          let first = find_in-some 3 13 (λ i. is_empty (entry_at t i)) fd found in
          inr (
            fd,
            first,
            rw (found, alloc),
            λ j. rw (found, alloc) (ground (arith, first.below, entry_at-set t fd j e)),
          )
    ]

-- On a table of sixteen descriptors, `close` gives what `get` gives; afterwards that descriptor is
-- free, and no other has changed.
pub close_lem :
    (fd : ℕ) (t : FdTable)
    → length t ≡ max_fds
    → ((close fd t).0 ≡ get fd t)
      × ((j : ℕ) → get j (close fd t).1 ≡ (if fd == j then none else get j t))
unfolding close get
close_lem fd t len = (ground arith, λ j. ground (arith, entry_at-set t fd j empty))

is_empty-empty : (e : FdEntry) → is_empty e ≡ true → e ≡ empty
is_empty-empty empty h = refl
is_empty-empty stdin h = cc
is_empty-empty stdout h = cc
is_empty-empty stderr h = cc
is_empty-empty dev_null h = cc
is_empty-empty dev_zero h = cc
is_empty-empty dev_urandom h = cc
is_empty-empty (vfs_file i o w) h = cc
is_empty-empty (vfs_dir i p) h = cc
is_empty-empty (pipe_read i) h = cc
is_empty-empty (pipe_write i) h = cc
is_empty-empty (socket_pair r w) h = cc

entry_at-past : (t : FdTable) (fd : ℕ) → length t ≤ fd → entry_at t fd ≡ empty
entry_at-past [] fd h = refl
entry_at-past (e ∷ rest) zero h = absurd (omega arith)
entry_at-past (e ∷ rest) (suc fd) h = entry_at-past rest fd (omega arith)

-- The table that `close` leaves, and what it answers.
abbrev pub Emptied : (fd : ℕ) (t : FdTable) → Option FdEntry × FdTable → Type 0
Emptied fd t (found, t') =
    (((found ≡ none) × (entry_at t fd ≡ empty))
      ⊎ ((e : FdEntry) × (found ≡ some e) × (entry_at t fd ≢ empty)))
    × (entry_at t' fd ≡ empty)
    × ((k : ℕ) → fd ≢ k → entry_at t' k ≡ entry_at t k)

pub close-Emptied : (fd : ℕ) (t : FdTable) → length t ≡ max_fds → Emptied fd t (close fd t)
unfolding close
close-Emptied fd t len = elim (dec_lt fd 16) [
  | no far ↦
      let out = entry_at-past t fd (omega arith) in
      let past : leb 16 fd ≡ true = ground arith in
      rw (past, close) (inl (refl, out), out, λ k ne. refl)
  | yes near ↦
      let within : leb 16 fd ≡ false = ground arith in
      elim (Bool-cases (is_empty (entry_at t fd))) [
        | inl shut ↦
            let out = is_empty-empty (entry_at t fd) shut in
            rw (within, shut, close) (inl (refl, out), out, λ k ne. refl)
        | inr held ↦
            rw (within, held, close)
              (
                inr (entry_at t fd, refl, λ e. cc (ap is_empty e, held)),
                get_or-set_self t fd empty empty (omega arith),
                λ k ne. get_or-set_ne t fd k empty empty ne,
              )
      ]
]
