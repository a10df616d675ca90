-- ===== src/Scheduler/Stack/Words.antt =====
-- What writing words and strings leaves in memory.
use ferrugem.Prelude.{
  ℕ, ◌+◌, ◌-◌, ◌*◌, ◌/◌, ◌^◌, ◌<◌, ◌≤◌, ◌≡◌, ◌⊎◌, inl, inr, refl, ◌∙◌, arith, Option, none, some,
  List, [], ◌∷◌, length, ltb, Bool-cases, Option-cases,
}
use ferrugem.Machine.{Ram, bytes_at, read_u64, write_u64, write_list}
use ferrugem.Machine.Words.{
  read-write_u64, write_u64_outside, read_u64-cong, bytes_at-cong, bytes_at-write_list,
  write_list_outside,
}
use ferrugem.Scheduler.Stack.{write_words, push_strings}

-- The words from the address `a` on.
abbrev pub WordsAt : Ram → (a : ℕ) → List ℕ → Type 0
WordsAt r a [] = Unit
WordsAt r a (w ∷ ws) = (read_u64 r a ≡ w) × WordsAt r (a + 8) ws

abbrev pub AllWords : List ℕ → Type 0
AllWords [] = Unit
AllWords (w ∷ ws) = (w < 2 ^ 64) × AllWords ws

-- A string and its NUL at an address.
abbrev pub StringAt : Ram → (a : ℕ) → List ℕ → Type 0
StringAt r a s = (bytes_at r a (length s) ≡ s) × (r (a + length s) ≡ 0)

pub write_words_outside :
    (a : ℕ) (ws : List ℕ) (r : Ram) (b : ℕ)
    → (b < a) ⊎ (a + length ws * 8 ≤ b)
    → write_words a ws r b ≡ r b
unfolding write_words
write_words_outside a [] r b h = refl
write_words_outside a (w ∷ ws) r b (inl h) =
    write_words_outside (a + 8) ws (write_u64 a w r) b (inl (omega arith))
    ∙ write_u64_outside a w r b (inl h)
write_words_outside a (w ∷ ws) r b (inr h) =
    write_words_outside (a + 8) ws (write_u64 a w r) b (inr (omega arith))
    ∙ write_u64_outside a w r b (inr (omega arith))

pub WordsAt-write_words :
    (a : ℕ) (ws : List ℕ) (r : Ram) → AllWords ws → WordsAt (write_words a ws r) a ws
unfolding write_words
WordsAt-write_words a [] r h = tt
WordsAt-write_words a (w ∷ ws) r (h, hs) = (
  read_u64-cong (write_words (a + 8) ws (write_u64 a w r)) (write_u64 a w r) a
        (λ b lo hi. write_words_outside (a + 8) ws (write_u64 a w r) b (inl (omega arith)))
      ∙ read-write_u64 a w r h,
  WordsAt-write_words (a + 8) ws (write_u64 a w r) hs,
)

-- A memory that agrees on a string and its NUL has the string.
pub StringAt-cong :
    (r r' : Ram) (a : ℕ) (s : List ℕ)
    → ((b : ℕ) → a ≤ b → b < a + (length s + 1) → r' b ≡ r b)
    → StringAt r a s
    → StringAt r' a s
StringAt-cong r r' a s h (e, f) = (
  bytes_at-cong r' r a (length s) (λ b lo hi. h b lo (omega arith)) ∙ e,
  h (a + length s) (omega arith) (omega arith) ∙ f,
)

-- The strings at addresses of the region, between two offsets.
abbrev pub StringsAt : Ram → (phys va lo hi : ℕ) → (vas : List ℕ) → List (List ℕ) → Type 0
StringsAt r phys va lo hi [] [] = Unit
StringsAt r phys va lo hi (a ∷ vas) [] = ⊥
StringsAt r phys va lo hi [] (s ∷ strings) = ⊥
StringsAt r phys va lo hi (a ∷ vas) (s ∷ strings) =
    ((off : ℕ) × (a ≡ va + off) × (lo ≤ off) × (off + length s < hi) × StringAt r (phys + off) s)
    × StringsAt r phys va lo hi vas strings

pub StringsAt-cong :
    (r r' : Ram) (phys va lo hi lo' hi' : ℕ) (vas : List ℕ) (strings : List (List ℕ))
    → lo' ≤ lo
    → hi ≤ hi'
    → ((b : ℕ) → phys + lo ≤ b → b < phys + hi → r' b ≡ r b)
    → StringsAt r phys va lo hi vas strings
    → StringsAt r' phys va lo' hi' vas strings
StringsAt-cong r r' phys va lo hi lo' hi' [] [] l u h c = tt
StringsAt-cong r r' phys va lo hi lo' hi' (a ∷ vas) [] l u h c = c
StringsAt-cong r r' phys va lo hi lo' hi' [] (s ∷ strings) l u h c = c
StringsAt-cong r r' phys va lo hi lo' hi' (a ∷ vas) (s ∷ strings) l u h
      ((off, at, low, high, c), rest) =
    (
      (
        off,
        at,
        omega arith,
        omega arith,
        StringAt-cong r r' (phys + off) s (λ b x y. h b (omega arith) (omega arith)) c,
      ),
      StringsAt-cong r r' phys va lo hi lo' hi' vas strings l u h rest,
    )

-- One string and its NUL.
abbrev pub string_written : (a : ℕ) → List ℕ → Ram → Ram
string_written a s r = write_list (a + length s) (0 ∷ []) (write_list a s r)

string_outside :
    (a : ℕ) (s : List ℕ) (r : Ram) (b : ℕ)
    → (b < a) ⊎ (a + length s + 1 ≤ b)
    → string_written a s r b ≡ r b
string_outside a s r b (inl h) =
    write_list_outside (a + length s) (0 ∷ []) (write_list a s r) b (inl (omega arith))
    ∙ write_list_outside a s r b (inl h)
string_outside a s r b (inr h) =
    write_list_outside (a + length s) (0 ∷ []) (write_list a s r) b (inr (omega arith))
    ∙ write_list_outside a s r b (inr (omega arith))

nul_written : (a : ℕ) (r : Ram) → write_list a (0 ∷ []) r a ≡ 0
unfolding write_list
nul_written a r = ground arith

string_there : (a : ℕ) (s : List ℕ) (r : Ram) → StringAt (string_written a s r) a s
string_there a s r = (
  bytes_at-cong (string_written a s r) (write_list a s r) a (length s) (λ b lo hi.
        write_list_outside (a + length s) (0 ∷ []) (write_list a s r) b (inl (omega arith)))
      ∙ bytes_at-write_list a s r,
  nul_written (a + length s) (write_list a s r),
)

-- What pushing strings down from an offset comes to: only the bytes between the region's start, or
-- the last offset, and that offset change, and the strings stand there.
abbrev pub Pushed : (phys va off : ℕ) → List (List ℕ) → Ram → Option (List ℕ × ℕ) → Ram → Type 0
Pushed phys va off strings r none r' = (b : ℕ) → (b < phys) ⊎ (phys + off ≤ b) → r' b ≡ r b
Pushed phys va off strings r (some (vas, last)) r' =
    (last ≤ off)
    × StringsAt r' phys va last off vas strings
    × ((b : ℕ) → (b < phys + last) ⊎ (phys + off ≤ b) → r' b ≡ r b)

module _ (phys va : ℕ) (s : List ℕ) (strings : List (List ℕ)) (off below : ℕ) (r r' : Ram) where
  Pushed-cons_none :
      below + length s + 1 ≤ off
      → Pushed phys va below strings (string_written (phys + below) s r) none r'
      → Pushed phys va off (s ∷ strings) r none r'
  Pushed-cons_none fits ih b (inl h) =
      ih b (inl h) ∙ string_outside (phys + below) s r b (inl (omega arith))
  Pushed-cons_none fits ih b (inr h) =
      ih b (inr (omega arith)) ∙ string_outside (phys + below) s r b (inr (omega arith))

  Pushed-cons_some :
      (vas : List ℕ) (last : ℕ)
      → below + length s + 1 ≤ off
      → Pushed phys va below strings (string_written (phys + below) s r) (some (vas, last)) r'
      → Pushed phys va off (s ∷ strings) r (some ((va + below) ∷ vas, last)) r'
  Pushed-cons_some vas last fits (le, there, same) = (
    omega arith,
    (
      (
        below,
        refl,
        le,
        omega arith,
        StringAt-cong (string_written (phys + below) s r) r' (phys + below) s
            (λ b lo hi. same b (inr lo)) (string_there (phys + below) s r),
      ),
      StringsAt-cong r' r' phys va last below last off vas strings (omega arith) (omega arith)
          (λ b lo hi. refl) there,
    ),
    λ b away. elim away [
      | inl h ↦ same b (inl h) ∙ string_outside (phys + below) s r b (inl (omega arith))
      | inr h ↦ same b (inr (omega arith)) ∙ string_outside (phys + below) s r b (inr (omega arith))
    ],
  )

pub push_strings-Pushed :
    (phys va : ℕ) (strings : List (List ℕ)) (off : ℕ) (r : Ram)
    → let after = push_strings phys va strings off r in Pushed phys va off strings r after.0 after.1
unfolding push_strings
push_strings-Pushed phys va [] off r = (omega arith, tt, λ b h. refl)
push_strings-Pushed phys va (s ∷ strings) off r =
    let below = (off - (length s + 1)) / 8 * 8 in
    let w = string_written (phys + below) s r in
    let ih = push_strings-Pushed phys va strings below w in
    let r' = (push_strings phys va strings below w).1 in
    elim (Bool-cases (ltb off (length s + 1))) [
      | inl small ↦ rw small (λ b h. refl)
      | inr big ↦ elim (Option-cases (push_strings phys va strings below w).0) [
        | inl e ↦
            rw (big, e)
              (Pushed-cons_none phys va s strings off below r r' (ground arith) (rw e at ih))
        | inr ((vas, last), e) ↦
            rw (big, e)
              (Pushed-cons_some phys va s strings off below r r' vas last (ground arith)
                (rw e at ih))
      ]
    ]
