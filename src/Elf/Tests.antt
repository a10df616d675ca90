-- ===== src/Elf/Tests.antt =====
-- The loader at a concrete file.
use ferrugem.Prelude.{
  ℕ, ◌+◌, ◌<◌, ◌≤◌, ◌≡◌, ◌≢◌, ◌⊎◌, refl, true, List, ◌∷◌, ◌++◌, replicate, arith,
}
use ferrugem.Bytes.{from_le_bytes}
use ferrugem.Machine.{Machine}
use ferrugem.Memory.Bump
use ferrugem.Memory.Bitmap.Init.{all_free}
use ferrugem.Elf.{ok, fault, rd, is_elf, read_header}
use ferrugem.Elf.Segments.{◌>>=◌, copy_part, zero_page, load}
use ferrugem.Elf.Bounds.{load-ne-fault}
use ferrugem.Elf.Image.{image, copy_part-zero_page}

abbrev number : ℕ → List ℕ
number b = b ∷ replicate 7 0

-- A position-independent file with one segment, of 120 bytes in the file and 200 in memory.
abbrev file : List ℕ
file =
    0x7f ∷ 0x45 ∷ 0x4c ∷ 0x46 ∷ 2 ∷ 1 ∷ replicate 10 0
    ++ (3 ∷ replicate 7 0
        ++ (number 16
            ++ (number 64
                ++ (replicate 14 0
                    ++ (56 ∷ 0 ∷ 1 ∷ replicate 7 0
                        ++ (1 ∷ 0 ∷ 0 ∷ 0 ∷ 5 ∷ 0 ∷ 0 ∷ 0 ∷ number 0
                            ++ (number 0
                                ++ (number 0 ++ (number 120 ++ (number 200 ++ number 0))))))))))

abbrev machine : Machine
machine = record {
  ram = λ a. 7;
  memory = record { bump = Bump.new 0 0; bitmap_ready = true; pmm = all_free 0x100000 8 };
}

file-is_elf : is_elf file ≡ true
unfolding is_elf
file-is_elf = refl

file_header :
    read_header file ≡ ok (record { etype = 3; entry = 16; phoff = 64; phentsize = 56; phnum = 1 })
unfolding read_header rd from_le_bytes
file_header = refl

load-ne-fault_example : (load file 0x100000 machine).0 ≢ fault
load-ne-fault_example = load-ne-fault file 0x100000 machine (omega arith)

copy_part-zero_page_example :
    let after =
      ((zero_page 0x101000 >>= λ _. copy_part file 0x8000000000 120 0 0x8000000000 0x101000)
        machine).1.ram in
    ((k : ℕ) → k < 4096 → after (0x101000 + k) ≡ image file 0x8000000000 120 0 (0x8000000000 + k))
    × ((b : ℕ) → (b < 0x101000) ⊎ (0x101000 + 4096 ≤ b) → after b ≡ machine.ram b)
copy_part-zero_page_example =
    copy_part-zero_page file 0x8000000000 120 0 0x8000000000 0x101000 machine (omega arith)
      (omega arith) (omega arith) (omega arith)
