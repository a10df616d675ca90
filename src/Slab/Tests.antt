-- ===== src/Slab/Tests.antt =====
-- The slab caches at concrete inputs.
use ferrugem.Prelude.{ℕ, ◌≡◌, refl, List, [], ◌∷◌, arith, get_or, zero, suc, true}
use ferrugem.Memory.Bump
use ferrugem.Memory.Bitmap.Init.{all_free}
use ferrugem.Slab.{Slab, empty, init, init_caches, classes, class_index, class_from, alloc, dealloc}
use ferrugem.Slab.Lists.{Holds, with_list, alloc-dealloc}

-- No block is free yet.
abbrev start : Slab
start = init (record {
  ram = λ a. 0;
  memory = record { bump = Bump.new 0 0; bitmap_ready = true; pmm = all_free 0x100000 64 };
})

no_heads : (sizes : List ℕ) (i : ℕ) → (get_or (init_caches sizes) i empty).head ≡ 0
unfolding init_caches
no_heads [] i = refl
no_heads (sz ∷ sizes) zero = refl
no_heads (sz ∷ sizes) (suc i) = no_heads sizes i

start-Holds : Holds start (λ i. [])
unfolding init
start-Holds i = no_heads classes i

-- A block of 100 bytes belongs to the class of 128.
alloc-dealloc_example :
    let s' = dealloc 0x101000 100 start in
    Holds s' (with_list 4 (0x101000 ∷ []) (λ i. []))
    × ((alloc 100 s').0 ≡ 0x101000)
    × Holds (alloc 100 s').1 (λ i. [])
unfolding init init_caches class_index class_from
alloc-dealloc_example =
    alloc-dealloc 0x101000 100 4 start (λ i. []) refl (omega arith) (λ e. absurd (omega (arith, e)))
      (omega arith) (λ i. tt) start-Holds
