-- ===== src/Scheduler/Stack/Tests.antt =====
-- A first stack at concrete inputs.
use ferrugem.Prelude.{ℕ, ◌≡◌, refl, some, List, [], ◌∷◌, arith}
use ferrugem.Machine.{Ram, write_list}
use ferrugem.Scheduler.Stack.{user_cstr, cstr_from, real_argv, setup_abi_stack, user_stack_size}
use ferrugem.Scheduler.Stack.Initial.{SetUp, setup_abi_stack-SetUp}

abbrev empty_ram : Ram
empty_ram a = 0

-- `ls -l`, with one variable of the environment.
abbrev arguments : List (List ℕ)
arguments = (b'l' ∷ b's' ∷ []) ∷ (b'-' ∷ b'l' ∷ []) ∷ []

abbrev environment : List (List ℕ)
environment = (b'A' ∷ b'=' ∷ b'1' ∷ []) ∷ []

setup_abi_stack-SetUp_example :
    SetUp empty_ram 0x200000 user_stack_size 0x8000000000 0x8000000040 3 56
      (real_argv [] arguments)
      environment
      (setup_abi_stack 7 0x200000 user_stack_size 0x8000008000 [] arguments environment 0x8000000040
        3 56 empty_ram)
setup_abi_stack-SetUp_example =
    setup_abi_stack-SetUp 7 0x200000 user_stack_size 0x8000008000 [] arguments environment
      0x8000000040 3 56 empty_ram (omega arith) (omega arith) (omega arith) (omega arith)
      (omega arith) (omega arith)

argument_read :
    user_cstr (write_list 64 (b'l' ∷ b's' ∷ []) empty_ram) 64 4096 ≡ some (b'l' ∷ b's' ∷ [])
unfolding user_cstr cstr_from write_list
argument_read = refl
