-- ===== src/Scheduler/Stack/Initial.antt =====
-- The first stack as the program finds it.
use ferrugem.Prelude.{
  ℕ, suc, ◌+◌, ◌-◌, ◌*◌, ◌/◌, ◌%◌, ◌^◌, ◌<◌, ◌≤◌, ◌≡◌, ◌⊎◌, inl, inr, refl, sym, ap, ◌∙◌, arith,
  Option, none, some, List, [], ◌∷◌, ◌++◌, length, take, ltb, Bool-cases, length-take,
  length-append,
}
use Prim.Native.Nat.{bit_xor}
use ferrugem.Machine.{Ram, write_u64}
use ferrugem.Machine.Words.{write_u64_outside}
use ferrugem.Scheduler.Stack.{
  push_strings, both_pushed, push_envp, put_table, real_argv, push_all, write_words, table, auxv,
  table_size, setup_abi_stack, max_exec_vec,
}
use ferrugem.Scheduler.Stack.Entries.{Describes, auxv-Describes}
use ferrugem.Scheduler.Stack.Words.{
  WordsAt, AllWords, StringsAt, StringsAt-cong, write_words_outside, WordsAt-write_words, Pushed,
  push_strings-Pushed,
}

-- Both lists of strings are in place, above the offset `off`.
abbrev PushedAll :
    (phys size va : ℕ)
    → (argv envp : List (List ℕ)) → Ram
    → Option (List ℕ × List ℕ × ℕ)
    → Ram
    → Type 0
PushedAll phys size va argv envp r none r' = (b : ℕ) → (b < phys) ⊎ (phys + size ≤ b) → r' b ≡ r b
PushedAll phys size va argv envp r (some (argv_va, envp_va, off)) r' =
    (off ≤ size - 16)
    × StringsAt r' phys va off (size - 16) argv_va (take max_exec_vec argv)
    × StringsAt r' phys va off (size - 16) envp_va (take max_exec_vec envp)
    × ((b : ℕ) → (b < phys + off) ⊎ (phys + size ≤ b) → r' b ≡ r b)

module _ (seed phys size va : ℕ) (argv envp : List (List ℕ)) (r : Ram) (room : 16 ≤ size) where
  abbrev seeded : Ram
  seeded =
      write_u64 (phys + (size - 16) + 8) (bit_xor seed 0xDEADBEEFCAFE1234)
        (write_u64 (phys + (size - 16)) seed r)

  seeded_outside : (b : ℕ) → (b < phys + (size - 16)) ⊎ (phys + size ≤ b) → seeded b ≡ r b
  seeded_outside b (inl h) =
      write_u64_outside (phys + (size - 16) + 8) _ (write_u64 (phys + (size - 16)) seed r) b
        (inl (omega arith))
      ∙ write_u64_outside (phys + (size - 16)) seed r b (inl (omega arith))
  seeded_outside b (inr h) =
      write_u64_outside (phys + (size - 16) + 8) _ (write_u64 (phys + (size - 16)) seed r) b
        (inr (omega arith))
      ∙ write_u64_outside (phys + (size - 16)) seed r b (inr (omega arith))

  no_args :
      (r1 : Ram)
      → Pushed phys va (size - 16) (take max_exec_vec argv) seeded none r1
      → PushedAll phys size va argv envp r none r1
  no_args r1 all b (inl h) = all b (inl h) ∙ seeded_outside b (inl (omega arith))
  no_args r1 all b (inr h) = all b (inr (omega arith)) ∙ seeded_outside b (inr h)

  no_envs :
      (argv_va : List ℕ) (off : ℕ) (r1 r2 : Ram)
      → Pushed phys va (size - 16) (take max_exec_vec argv) seeded (some (argv_va, off)) r1
      → Pushed phys va off (take max_exec_vec envp) r1 none r2
      → PushedAll phys size va argv envp r none r2
  no_envs argv_va off r1 r2 (le, there, same) all b (inl h) =
      all b (inl h) ∙ same b (inl (omega arith)) ∙ seeded_outside b (inl (omega arith))
  no_envs argv_va off r1 r2 (le, there, same) all b (inr h) =
      all b (inr (omega arith)) ∙ same b (inr (omega arith)) ∙ seeded_outside b (inr h)

  both :
      (argv_va envp_va : List ℕ) (off off' : ℕ) (r1 r2 : Ram)
      → Pushed phys va (size - 16) (take max_exec_vec argv) seeded (some (argv_va, off)) r1
      → Pushed phys va off (take max_exec_vec envp) r1 (some (envp_va, off')) r2
      → PushedAll phys size va argv envp r (some (argv_va, envp_va, off')) r2
  both argv_va envp_va off off' r1 r2 (le, there, same) (le', there', same') = (
    omega arith,
    StringsAt-cong r1 r2 phys va off (size - 16) off' (size - 16) argv_va (take max_exec_vec argv)
        le' (omega arith) (λ b lo hi. same' b (inr lo)) there,
    StringsAt-cong r2 r2 phys va off' off off' (size - 16) envp_va (take max_exec_vec envp)
        (omega arith) le (λ b lo hi. refl) there',
    λ b away. elim away [
      | inl h ↦ same' b (inl h) ∙ same b (inl (omega arith)) ∙ seeded_outside b (inl (omega arith))
      | inr h ↦ same' b (inr (omega arith)) ∙ same b (inr (omega arith)) ∙ seeded_outside b (inr h)
    ],
  )

  both_pushed-PushedAll :
      (argv_va : List ℕ) (off : ℕ) (r1 : Ram) (p : Option (List ℕ × ℕ) × Ram)
      → Pushed phys va (size - 16) (take max_exec_vec argv) seeded (some (argv_va, off)) r1
      → Pushed phys va off (take max_exec_vec envp) r1 p.0 p.1
      → let after = both_pushed argv_va p in PushedAll phys size va argv envp r after.0 after.1
  unfolding both_pushed
  both_pushed-PushedAll argv_va off r1 (none, r2) p1 p2 = no_envs argv_va off r1 r2 p1 p2
  both_pushed-PushedAll argv_va off r1 (some (envp_va, off'), r2) p1 p2 =
      both argv_va envp_va off off' r1 r2 p1 p2

  push_envp-PushedAll :
      (p : Option (List ℕ × ℕ) × Ram)
      → Pushed phys va (size - 16) (take max_exec_vec argv) seeded p.0 p.1
      → let after = push_envp phys va envp p in PushedAll phys size va argv envp r after.0 after.1
  unfolding push_envp
  push_envp-PushedAll (none, r1) p1 = no_args r1 p1
  push_envp-PushedAll (some (argv_va, off), r1) p1 =
      both_pushed-PushedAll argv_va off r1 (push_strings phys va (take max_exec_vec envp) off r1) p1
        (push_strings-Pushed phys va (take max_exec_vec envp) off r1)

  push_all-PushedAll :
      let after = push_all seed phys size va argv envp r in
      PushedAll phys size va argv envp r after.0 after.1
  unfolding push_all
  push_all-PushedAll =
      push_envp-PushedAll (push_strings phys va (take max_exec_vec argv) (size - 16) seeded)
        (push_strings-Pushed phys va (take max_exec_vec argv) (size - 16) seeded)

-- The addresses of strings in the region are words.
AllWords-vas :
    (r : Ram) (phys va lo hi : ℕ) (vas : List ℕ) (strings : List (List ℕ)) (rest : List ℕ)
    → va + hi < 2 ^ 64
    → StringsAt r phys va lo hi vas strings
    → AllWords rest
    → AllWords (vas ++ rest)
AllWords-vas r phys va lo hi [] [] rest small c h = h
AllWords-vas r phys va lo hi (a ∷ vas) [] rest small c h = absurd c
AllWords-vas r phys va lo hi [] (s ∷ strings) rest small c h = absurd c
AllWords-vas r phys va lo hi (a ∷ vas) (s ∷ strings) rest small ((off, at, low, high, c), cs) h =
    (omega arith, AllWords-vas r phys va lo hi vas strings rest small cs h)

length-vas :
    (r : Ram) (phys va lo hi : ℕ) (vas : List ℕ) (strings : List (List ℕ))
    → StringsAt r phys va lo hi vas strings
    → length vas ≡ length strings
length-vas r phys va lo hi [] [] c = refl
length-vas r phys va lo hi (a ∷ vas) [] c = absurd c
length-vas r phys va lo hi [] (s ∷ strings) c = absurd c
length-vas r phys va lo hi (a ∷ vas) (s ∷ strings) (_, cs) =
    ap suc (length-vas r phys va lo hi vas strings cs)

length-table :
    (argv_va envp_va : List ℕ) (a b c d : ℕ)
    → length (table argv_va envp_va (auxv a b c d)) * 8
      ≡ table_size (length argv_va) (length envp_va)
length-table argv_va envp_va a b c d = omega (
  arith,
  length-append argv_va (0 ∷ envp_va ++ (0 ∷ auxv a b c d)),
  length-append envp_va (0 ∷ auxv a b c d),
)

-- What a program finds at its first stack pointer.
pub record Starts (r : Ram) (phys size va rsp phdr_va phnum phentsize : ℕ)
    (argv envp : List (List ℕ)) : Type 0 where
  pub rsp_off : ℕ
  pub pointer : rsp ≡ va + rsp_off
  pub aligned : rsp_off % 16 ≡ 0
  pub argv_va : List ℕ
  pub envp_va : List ℕ
  pub words :
      WordsAt r
        (phys + rsp_off)
        (table argv_va envp_va (auxv phdr_va phentsize phnum (va + (size - 16))))
  pub auxiliary :
      Describes phdr_va phentsize phnum
        (va + (size - 16))
        (auxv phdr_va phentsize phnum (va + (size - 16)))
  pub arguments : StringsAt r phys va rsp_off (size - 16) argv_va (take max_exec_vec argv)
  pub environment : StringsAt r phys va rsp_off (size - 16) envp_va (take max_exec_vec envp)

-- Only the region changes, and a stack pointer that is returned is a good start.
abbrev pub SetUp :
    Ram
    → (phys size va phdr_va phnum phentsize : ℕ) → (argv envp : List (List ℕ)) → Option ℕ × Ram
    → Type 0
SetUp r phys size va phdr_va phnum phentsize argv envp (found, r') =
    ((b : ℕ) → (b < phys) ⊎ (phys + size ≤ b) → r' b ≡ r b)
    × ((rsp : ℕ) → found ≡ some rsp → Starts r' phys size va rsp phdr_va phnum phentsize argv envp)

module _ (phys size va phdr_va phnum phentsize : ℕ) (argv envp : List (List ℕ)) (r : Ram)
    (room : 16 ≤ size) (top : va + size < 2 ^ 64) (phdr_small : phdr_va < 2 ^ 64)
    (phnum_small : phnum < 2 ^ 64) (phentsize_small : phentsize < 2 ^ 64) where
  abbrev aux : List ℕ
  aux = auxv phdr_va phentsize phnum (va + (size - 16))

  aux-AllWords : AllWords aux
  aux-AllWords = omega arith

  table-Starts :
      (argv_va envp_va : List ℕ) (off : ℕ) (r' : Ram) (rsp : ℕ)
      → let need = table_size (length argv_va) (length envp_va) in
        let rsp_off = (off - need) / 16 * 16 in
        need ≤ off
        → va + rsp_off ≡ rsp
        → off ≤ size - 16
        → StringsAt r' phys va off (size - 16) argv_va (take max_exec_vec argv)
        → StringsAt r' phys va off (size - 16) envp_va (take max_exec_vec envp)
        → Starts
            (write_words (phys + rsp_off) (table argv_va envp_va aux) r')
            phys
            size
            va
            rsp
            phdr_va
            phnum
            phentsize
            argv
            envp
  table-Starts argv_va envp_va off r' rsp fits at le args envs =
      let need = table_size (length argv_va) (length envp_va) in
      let rsp_off = (off - need) / 16 * 16 in
      let words = table argv_va envp_va aux in
      let long : length words * 8 ≡ need =
        length-table argv_va envp_va phdr_va phentsize phnum (va + (size - 16)) in
      let few : length argv_va ≤ 64 = omega (
        arith,
        length-vas r' phys va off (size - 16) argv_va (take max_exec_vec argv) args,
        length-take max_exec_vec argv,
      ) in
      let kept = λ (b : ℕ) (lo : phys + off ≤ b) (hi : b < phys + (size - 16)).
        write_words_outside (phys + rsp_off) words r' b (inr (omega arith)) in
      record {
        rsp_off = rsp_off;
        pointer = sym at;
        aligned = omega arith;
        argv_va = argv_va;
        envp_va = envp_va;
        words = WordsAt-write_words (phys + rsp_off) words r' (
          omega arith,
          AllWords-vas r' phys va off (size - 16) argv_va (take max_exec_vec argv) _ (omega arith)
              args
              (
                omega arith,
                AllWords-vas r' phys va off (size - 16) envp_va (take max_exec_vec envp) _
                    (omega arith) envs (omega arith, aux-AllWords),
              ),
        );
        auxiliary = auxv-Describes phdr_va phentsize phnum (va + (size - 16));
        arguments =
            StringsAt-cong r' (write_words (phys + rsp_off) words r') phys va off (size - 16)
              rsp_off (size - 16) argv_va (take max_exec_vec argv) (omega arith) (omega arith) kept
              args;
        environment =
            StringsAt-cong r' (write_words (phys + rsp_off) words r') phys va off (size - 16)
              rsp_off (size - 16) envp_va (take max_exec_vec envp) (omega arith) (omega arith) kept
              envs;
      }

  put_table-SetUp :
      (p : Option (List ℕ × List ℕ × ℕ) × Ram)
      → PushedAll phys size va argv envp r p.0 p.1
      → SetUp r phys size va phdr_va phnum phentsize argv envp
          (put_table phys size va phdr_va phnum phentsize p)
  unfolding put_table
  put_table-SetUp (none, r') same = (same, λ rsp e. absurd (cc e))
  put_table-SetUp (some (argv_va, envp_va, off), r') (le, args, envs, same) =
      let need = table_size (length argv_va) (length envp_va) in
      let rsp_off = (off - need) / 16 * 16 in
      let words = table argv_va envp_va aux in
      let long : length words * 8 ≡ need =
        length-table argv_va envp_va phdr_va phentsize phnum (va + (size - 16)) in
      let outside : (b : ℕ) → (b < phys) ⊎ (phys + size ≤ b) → r' b ≡ r b =
        λ b away. same b (elim away [ inl h ↦ inl (omega arith) | inr h ↦ inr h ]) in
      elim (Bool-cases (ltb off need)) [
        | inl full ↦ rw full (outside, λ rsp e. absurd (cc e))
        | inr fits ↦ rw fits (
          λ b away.
              write_words_outside (phys + rsp_off) words r' b
                (elim away [ inl h ↦ inl (omega arith) | inr h ↦ inr (ground arith) ])
              ∙ outside b away,
          λ rsp e. table-Starts argv_va envp_va off r' rsp (ground arith) (cc e) le args envs,
        )
      ]

-- For a region of 16 bytes or more that ends at a 64-bit address, and program headers described by
-- words, `setup_abi_stack` changes no byte outside of the region, however long the arguments and the
-- environment are. A stack pointer that it returns is at a multiple of 16 from the region's start. At
-- it stand argc, the addresses of the arguments, a null, those of the environment, a null and the
-- auxiliary vector, in which a program finds the program headers' address, entry size and number, the
-- page size 4096, the value 0 for AT_SECURE and the seed's address; and at these addresses, above the stack pointer and below the seed, stand the first
-- 64 arguments (the given name, if there are none) and environment strings, each with a NUL.
pub setup_abi_stack-SetUp :
    (seed phys size top : ℕ) (argv0 : List ℕ) (argv envp : List (List ℕ))
    (phdr_va phnum phentsize : ℕ) (r : Ram)
    → 16 ≤ size
    → size ≤ top
    → top < 2 ^ 64
    → phdr_va < 2 ^ 64
    → phnum < 2 ^ 64
    → phentsize < 2 ^ 64
    → SetUp r phys size
        (top - size)
        phdr_va
        phnum
        phentsize
        (real_argv argv0 argv)
        envp
        (setup_abi_stack seed phys size top argv0 argv envp phdr_va phnum phentsize r)
unfolding setup_abi_stack
setup_abi_stack-SetUp seed phys size top argv0 argv envp phdr_va phnum phentsize r room below word a
      b c =
    put_table-SetUp phys size (top - size) phdr_va phnum phentsize (real_argv argv0 argv) envp r
      room (omega arith) a b c (push_all seed phys size (top - size) (real_argv argv0 argv) envp r)
      (push_all-PushedAll seed phys size (top - size) (real_argv argv0 argv) envp r room)
