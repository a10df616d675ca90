-- ===== src/Machine/Words.antt =====
-- Reading back what was written, and what a write leaves alone.
use ferrugem.Prelude.{
  ℕ, zero, suc, ◌+◌, ◌^◌, ◌<◌, ◌≤◌, ◌≡◌, ◌⊎◌, inl, inr, refl, ap, ap₂, ◌∙◌, arith, List, [], ◌∷◌,
  length, replicate, get_or,
}
use ferrugem.Bytes.{le_bytes, from_le_bytes, from_le_bytes-le_bytes, length-le_bytes}
use ferrugem.Machine.{Ram, bytes_at, write_list, zero_fill, read_u64, write_u64}

-- Two memories that agree on a range read the same there.
pub bytes_at-cong :
    (r q : Ram) (a n : ℕ)
    → ((b : ℕ) → a ≤ b → b < a + n → r b ≡ q b)
    → bytes_at r a n ≡ bytes_at q a n
unfolding bytes_at
bytes_at-cong r q a zero h = refl
bytes_at-cong r q a (suc n) h =
    ap₂ ◌∷◌ (h a (omega arith) (omega arith))
      (bytes_at-cong r q (a + 1) n (λ b lo hi. h b (omega arith) (omega arith)))

pub read_u64-cong :
    (r q : Ram) (a : ℕ) → ((b : ℕ) → a ≤ b → b < a + 8 → r b ≡ q b) → read_u64 r a ≡ read_u64 q a
unfolding read_u64
read_u64-cong r q a h = ap from_le_bytes (bytes_at-cong r q a 8 h)

-- Bytes outside of what is written stay.
pub write_list_outside :
    (a : ℕ) (xs : List ℕ) (r : Ram) (b : ℕ)
    → (b < a) ⊎ (a + length xs ≤ b)
    → write_list a xs r b ≡ r b
unfolding write_list
write_list_outside a [] r b h = refl
write_list_outside a (x ∷ xs) r b (inl h) =
    ground (arith, write_list_outside (a + 1) xs r b (inl (omega arith)))
write_list_outside a (x ∷ xs) r b (inr h) =
    ground (arith, write_list_outside (a + 1) xs r b (inr (omega arith)))

pub bytes_at-write_list :
    (a : ℕ) (xs : List ℕ) (r : Ram) → bytes_at (write_list a xs r) a (length xs) ≡ xs
unfolding bytes_at write_list
bytes_at-write_list a [] r = refl
bytes_at-write_list a (x ∷ xs) r = ap₂ ◌∷◌ (ground arith) (
    bytes_at-cong (write_list a (x ∷ xs) r) (write_list (a + 1) xs r) (a + 1) (length xs)
      (λ b lo hi. ground arith)
    ∙ bytes_at-write_list (a + 1) xs r)

-- A word is read back as it was written.
pub read-write_u64 : (a v : ℕ) (r : Ram) → v < 2 ^ 64 → read_u64 (write_u64 a v r) a ≡ v
unfolding read_u64 write_u64
read-write_u64 a v r h =
    let n : length (le_bytes 8 v) ≡ 8 = length-le_bytes 8 v in
    let back : bytes_at (write_list a (le_bytes 8 v) r) a 8 ≡ le_bytes 8 v =
      rw n at (bytes_at-write_list a (le_bytes 8 v) r) in
    ap from_le_bytes back ∙ from_le_bytes-le_bytes 8 v (omega arith)

pub write_u64_outside :
    (a v : ℕ) (r : Ram) (b : ℕ) → (b < a) ⊎ (a + 8 ≤ b) → write_u64 a v r b ≡ r b
unfolding write_u64
write_u64_outside a v r b h = write_list_outside a (le_bytes 8 v) r b (rw (length-le_bytes 8 v) h)

-- A word that does not overlap the one written reads as before.
pub read-write_u64_ne :
    (a b v : ℕ) (r : Ram) → (b + 8 ≤ a) ⊎ (a + 8 ≤ b) → read_u64 (write_u64 a v r) b ≡ read_u64 r b
read-write_u64_ne a b v r (inl h) =
    read_u64-cong _ r b (λ c lo hi. write_u64_outside a v r c (inl (omega arith)))
read-write_u64_ne a b v r (inr h) =
    read_u64-cong _ r b (λ c lo hi. write_u64_outside a v r c (inr (omega arith)))

pub zero_fill_outside :
    (a n : ℕ) (r : Ram) (b : ℕ) → (b < a) ⊎ (a + n ≤ b) → zero_fill a n r b ≡ r b
unfolding zero_fill
zero_fill_outside a n r b (inl h) = ground arith
zero_fill_outside a n r b (inr h) = ground arith

zeros : (a n : ℕ) → bytes_at (λ b. 0) a n ≡ replicate n 0
unfolding bytes_at
zeros a zero = refl
zeros a (suc n) = rw (zeros (a + 1) n)

-- A word inside of a zeroed range is zero.
pub read_u64-zero_fill :
    (a n b : ℕ) (r : Ram) → a ≤ b → b + 8 ≤ a + n → read_u64 (zero_fill a n r) b ≡ 0
unfolding read_u64 zero_fill from_le_bytes
read_u64-zero_fill a n b r lo hi =
    ap from_le_bytes
      (bytes_at-cong (zero_fill a n r) (λ c. 0) b 8 (λ c l h. ground arith) ∙ zeros b 8)

pub read_u64-zero_fill_ne :
    (a n b : ℕ) (r : Ram) → (b + 8 ≤ a) ⊎ (a + n ≤ b) → read_u64 (zero_fill a n r) b ≡ read_u64 r b
read_u64-zero_fill_ne a n b r (inl h) =
    read_u64-cong _ r b (λ c lo hi. zero_fill_outside a n r c (inl (omega arith)))
read_u64-zero_fill_ne a n b r (inr h) =
    read_u64-cong _ r b (λ c lo hi. zero_fill_outside a n r c (inr (omega arith)))

pub write_list_inside :
    (a : ℕ) (xs : List ℕ) (r : Ram) (i : ℕ)
    → i < length xs
    → write_list a xs r (a + i) ≡ get_or xs i 0
unfolding write_list
write_list_inside a [] r i h = elim h [ ]
write_list_inside a (x ∷ xs) r zero h = ground arith
write_list_inside a (x ∷ xs) r (suc i) h =
    let e : a + suc i ≡ a + 1 + i = omega arith in
    rw e (ground (arith, write_list_inside (a + 1) xs r i (omega arith)))
