-- ===== src/Omp/Microtask.antt =====
-- `__kmpc_fork_call` and `__microtask_wrapper` of sw/snRuntime/src/omp/kmp.c: how the arguments of
-- a parallel region reach its threads.
pub mod Calls
use snax_rebase.Base.{
  ℕ, zero, suc, ◌+◌, ◌-◌, ◌^◌, List, [], ◌∷◌, ◌++◌, Bool, ltb, leb, ◌==◌, if◌then◌else◌, length,
}
use snax_rebase.Base.Memory.{update}
use snax_rebase.Base.Words.{u32}

-- `KMP_FORK_MAX_NARGS`, the words that `omp_init` allocates for `kmpc_args`.
abbrev pub max_nargs : ℕ
max_nargs = 12

-- The words at `kmpc_args`, by index; a call may write past the words that are allocated.
abbrev pub Words : Type 0
Words = ℕ → ℕ

-- `kmpc_args[i] = va_arg(...)` for the rest of the arguments
unfoldable pub copy_varargs : ℕ → List ℕ → Words → Words
copy_varargs i [] w = w
copy_varargs i (x ∷ xs) w = copy_varargs (i + 1) xs (update w i (u32 x))

-- `kmpc_args[0] = microtask`, then the arguments.
unfoldable pub store_args : ℕ → List ℕ → Words → Words
store_args microtask args w = copy_varargs 1 args (update w 0 (u32 microtask))

-- What `__microtask_wrapper` does: calls of the microtask with arguments, and `snrt_exit`. That
-- enters the global barrier, where it waits for the data mover core too.
pub data Event : Type 0 where
  exit : ℕ → Event
  call : ℕ → List ℕ → Event

-- `p_argv[0] … p_argv[n - 1]`, where `p_argv` is the second word
abbrev pub argv_from : ℕ → ℕ → Words → List ℕ
argv_from i zero w = []
argv_from i (suc n) w = w i ∷ argv_from (i + 1) n w

abbrev pub call_with : ℕ → Words → Event
call_with n w = call (w 0) (argv_from 1 n w)

-- The statements from the label `case k` on: 0 to 7 and 12 end in `break`, 8 to 11 fall through.
unfoldable pub from_case : ℕ → Words → List Event
from_case k w =
    if ltb k 8
    then call_with k w ∷ []
    else if k == 8
    then call_with 8 w ∷ call_with 9 w ∷ call_with 10 w ∷ call_with 11 w ∷ call_with 12 w ∷ []
    else if k == 9
    then call_with 9 w ∷ call_with 10 w ∷ call_with 11 w ∷ call_with 12 w ∷ []
    else if k == 10
    then call_with 10 w ∷ call_with 11 w ∷ call_with 12 w ∷ []
    else if k == 11
    then call_with 11 w ∷ call_with 12 w ∷ []
    else call_with 12 w ∷ []

-- The label `default` stands first. It would fall through to `case 0`, but `snrt_exit` does not return:
-- the data mover core serves its queue and does not come to the barrier.
unfoldable pub microtask_wrapper : ℕ → Words → List Event
microtask_wrapper argc w = if leb argc 12 then from_case argc w else (exit (2 ^ 32 - 1) ∷ [])
