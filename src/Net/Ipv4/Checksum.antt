-- ===== src/Net/Ipv4/Checksum.antt =====
-- The Internet checksum: the loop that folds the carries ends, and the sum is that of one's
-- complement arithmetic, so a packet with its checksum sums to 0xFFFF.
use ferrugem.Prelude.{
  ℕ, ◌+◌, ◌-◌, ◌*◌, ◌/◌, ◌%◌, ◌^◌, ◌<◌, ◌≡◌, ◌∙◌, arith, List, [], ◌∷◌, if◌then◌else◌, ◌==◌,
}
use ferrugem.Net.Ipv4.{add_words, fold_carry, checksum}

-- The sum of one's complement arithmetic: zero only for no words but zeros, and else the residue
-- modulo 0xFFFF in the range from 1 to 0xFFFF.
abbrev pub ones_complement : ℕ → ℕ
ones_complement sum = if sum == 0 then 0 else (sum - 1) % 0xFFFF + 1

-- For every `u32`, two rounds of the loop end it, and its value is the sum in one's complement.
pub fold_carry_lem :
    (sum : ℕ)
    → sum < 2 ^ 32
    → (fold_carry 2 sum / 2 ^ 16 ≡ 0) × (fold_carry 2 sum ≡ ones_complement sum)
unfolding fold_carry
fold_carry_lem sum h = (ground arith, ground arith)

-- The sum of the words, of any size.
abbrev pub words : List ℕ → ℕ
words [] = 0
words (a ∷ []) = a * 256
words (a ∷ b ∷ rest) = a * 256 + b + words rest

add_words-words : (d : List ℕ) (sum : ℕ) → sum + words d < 2 ^ 32 → add_words d sum ≡ sum + words d
unfolding add_words
add_words-words [] sum h = omega arith
add_words-words (a ∷ []) sum h = omega arith
add_words-words (a ∷ b ∷ rest) sum h =
    let e : (sum + (a * 256 + b)) % 2 ^ 32 ≡ sum + (a * 256 + b) = omega arith in
    rw e (add_words-words rest (sum + (a * 256 + b)) (omega arith) ∙ omega arith)

-- The checksum of words whose sum fits is what their sum in one's complement lacks to 0xFFFF.
pub checksum-words :
    (d : List ℕ) → words d < 2 ^ 32 → checksum d ≡ 0xFFFF - ones_complement (words d)
unfolding checksum
checksum-words d h =
    let (_, folded) = fold_carry_lem (words d) h in
    let e : add_words d 0 ≡ words d = add_words-words d 0 (omega arith) ∙ omega arith in
    rw (e, folded) (ground arith)

-- A sum to which the checksum of the rest is added has the checksum zero.
pub checksum-zero :
    (d d' : List ℕ)
    → 0 < words d
    → words d < 2 ^ 31
    → words d' ≡ words d + checksum d
    → checksum d' ≡ 0
checksum-zero d d' pos small e = ground (
  arith,
  checksum-words d (omega arith),
  checksum-words d' (omega (arith, checksum-words d (omega arith))),
)

-- Such a sum is 0xFFFF in one's complement.
pub ones_complement-full :
    (d d' : List ℕ)
    → 0 < words d
    → words d < 2 ^ 31
    → words d' ≡ words d + checksum d
    → ones_complement (words d') ≡ 0xFFFF
ones_complement-full d d' pos small e = ground (arith, checksum-words d (omega arith))
