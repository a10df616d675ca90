-- ===== src/Elf/Image.antt =====
-- What the loader puts into a page.
use ferrugem.Prelude.{
  ℕ, ◌+◌, ◌-◌, ◌%◌, ◌^◌, ◌<◌, ◌≤◌, ◌≡◌, ◌&&◌, ◌∙◌, List, arith, length, get_or, min, max, true,
  if◌then◌else◌, inl, inr, leb, ltb, ◌⊎◌, dec_lt, lt→ltb, le→ltb,
}
use ferrugem.Bytes.{slice, get_or-slice, length-slice}
use ferrugem.Machine.{Ram, Machine, write_list, zero_fill, on_ram}
use ferrugem.Machine.Words.{write_list_inside, write_list_outside, zero_fill_outside}
use ferrugem.Elf.Segments.{◌>>=◌, copy_part, zero_page}

-- The byte that a segment has at an address: the file's, and zero past the file's part.
abbrev pub image : List ℕ → (seg_va filesz offset va : ℕ) → ℕ
image d seg_va filesz offset va =
    if leb seg_va va && ltb va (seg_va + filesz) then get_or d (offset + (va - seg_va)) 0 else 0

-- A zeroed page into which `len` bytes of the file were copied at `dst`.
filled :
    (d : List ℕ) (phys dst src len : ℕ) (r : Ram) (k : ℕ)
    → k < 4096
    → src + len ≤ length d
    → write_list (phys + dst) (slice src (src + len) d) (zero_fill phys 4096 r) (phys + k)
      ≡ (if leb dst k && ltb k (dst + len) then get_or d (src + (k - dst)) 0 else 0)
unfolding zero_fill
filled d phys dst src len r k h fits =
    let n : length (slice src (src + len) d) ≡ len =
      length-slice src (src + len) d fits ∙ omega arith in
    elim (dec_lt k dst) [
      | yes below ↦
          write_list_outside (phys + dst) (slice src (src + len) d) (zero_fill phys 4096 r)
            (phys + k) (inl (omega arith))
          ∙ ground arith
      | no above ↦ elim (dec_lt k (dst + len)) [
        | yes within ↦
            let e : phys + k ≡ phys + dst + (k - dst) = omega arith in
            rw e (
              write_list_inside (phys + dst) (slice src (src + len) d) (zero_fill phys 4096 r)
                (k - dst) (omega arith)
              ∙ get_or-slice src (src + len) d (k - dst) 0 (omega arith)
              ∙ ground arith)
        | no past ↦
            write_list_outside (phys + dst) (slice src (src + len) d) (zero_fill phys 4096 r)
              (phys + k) (inr (omega arith))
            ∙ ground arith
      ]
    ]

module _ (d : List ℕ) (seg_va filesz offset page_va phys : ℕ) (m : Machine) where
  abbrev lo : ℕ
  lo = max page_va seg_va

  abbrev hi : ℕ
  hi = min (page_va + 4096) (seg_va + filesz)

  -- `copy_part` without the sums that could wrap.
  copied :
      offset + filesz ≤ length d
      → length d < 2 ^ 63
      → seg_va + filesz < 2 ^ 64
      → page_va + 4096 < 2 ^ 64
      → lo < hi
      → (copy_part d seg_va filesz offset page_va phys m).1.ram
        ≡ write_list
            (phys + (lo - page_va))
            (slice (offset + (lo - seg_va)) (offset + (lo - seg_va) + (hi - lo)) d)
            m.ram
  unfolding copy_part on_ram
  copied fits small seg_fits page_fits some_bytes =
      let e : (page_va + 4096) % 2 ^ 64 ≡ page_va + 4096 = omega arith in
      let f : (seg_va + filesz) % 2 ^ 64 ≡ seg_va + filesz = omega arith in
      let g : (offset + (lo - seg_va)) % 2 ^ 64 ≡ offset + (lo - seg_va) = omega arith in
      let inside : (leb (offset + (lo - seg_va) + (hi - lo)) (length d)
            && leb (lo - page_va + (hi - lo)) 4096)
          ≡ true =
        ground arith in
      rw (e, f, g, lt→ltb lo hi some_bytes, inside)

  not_copied :
      seg_va + filesz < 2 ^ 64
      → page_va + 4096 < 2 ^ 64
      → hi ≤ lo
      → (copy_part d seg_va filesz offset page_va phys m).1.ram ≡ m.ram
  unfolding copy_part on_ram
  not_copied seg_fits page_fits no_bytes =
      let e : (page_va + 4096) % 2 ^ 64 ≡ page_va + 4096 = omega arith in
      let f : (seg_va + filesz) % 2 ^ 64 ≡ seg_va + filesz = omega arith in
      rw (e, f, le→ltb lo hi no_bytes)

-- The page at `phys` that was zeroed and then filled for the address `page_va` holds, in each of its
-- bytes, what the segment has at that address, if the file has the segment's part and neither the
-- page nor that part passes the end of the address space. The bytes outside of the page stay.
pub copy_part-zero_page :
    (d : List ℕ) (seg_va filesz offset page_va phys : ℕ) (m : Machine)
    → offset + filesz ≤ length d
    → length d < 2 ^ 63
    → seg_va + filesz < 2 ^ 64
    → page_va + 4096 < 2 ^ 64
    → let after =
        ((zero_page phys >>= λ _. copy_part d seg_va filesz offset page_va phys) m).1.ram in
      ((k : ℕ) → k < 4096 → after (phys + k) ≡ image d seg_va filesz offset (page_va + k))
      × ((b : ℕ) → (b < phys) ⊎ (phys + 4096 ≤ b) → after b ≡ m.ram b)
unfolding on_ram
copy_part-zero_page d seg_va filesz offset page_va phys m fits small seg_fits page_fits =
    let zeroed = on_ram (zero_fill phys 4096) m in
    let lo = max page_va seg_va in
    let hi = min (page_va + 4096) (seg_va + filesz) in
    let src = offset + (lo - seg_va) in
    elim (dec_lt lo hi) [
      | yes some_bytes ↦
          let e =
            copied d seg_va filesz offset page_va phys zeroed fits small seg_fits page_fits
              some_bytes in
          let n : length (slice src (src + (hi - lo)) d) ≡ hi - lo =
            length-slice src (src + (hi - lo)) d (omega arith) ∙ omega arith in
          rw e (
            λ k h.
                filled d phys (lo - page_va) src (hi - lo) m.ram k h (omega arith) ∙ ground arith,
            λ b away.
                write_list_outside (phys + (lo - page_va)) (slice src (src + (hi - lo)) d)
                  zeroed.ram b (elim away [ inl h ↦ inl (omega arith) | inr h ↦ inr (omega arith) ])
                ∙ zero_fill_outside phys 4096 m.ram b away,
          )
      | no no_bytes ↦
          rw
            (not_copied d seg_va filesz offset page_va phys zeroed seg_fits page_fits (omega arith))
            (
              λ k h. unfold zero_fill in ground arith,
              λ b away. zero_fill_outside phys 4096 m.ram b away,
            )
    ]
