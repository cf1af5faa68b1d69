-- ===== src/Examples/Parallel.antt =====
-- Schedules, parallel regions, and the barrier at concrete values
-- (sw/snRuntime/src/omp/kmp.c, sw/snRuntime/src/sync.h).
use snax_rebase.Base.{
  ℕ, ◌++◌, ◌+◌, ◌-◌, ◌*◌, ◌≤◌, ◌<◌, ◌≡◌, ◌↔◌, refl, List, [], ◌∷◌, map, none, some, arith, length,
}
use snax_rebase.Base.Words.{u32}
use snax_rebase.Omp.Schedule.{
  Bounds, init_plain, plain_lower, plain_upper, plain_chunk, plain_quota, left_over, takes_extra,
  loop_size,
}
use mathlib.Core.Bool.{xor}
use snax_rebase.Omp.Schedule.Quota.{IsLoop, team_of}
use snax_rebase.Omp.Schedule.Partition.{Executes, plain_covers, plain_disjoint}
use snax_rebase.Omp.Schedule.Strided.{strided_start}
use snax_rebase.Omp.Microtask.{Words, call, argv_from, microtask_wrapper, store_args}
use snax_rebase.Omp.Microtask.Calls.{fork_calls_once, wrapper_falls_through, counts}
use snax_rebase.Sync.Barrier.{
  System, Reach, start, later, pick, enter, arrive, entered, waiting, init, completed, arrivals,
}
use snax_rebase.Base.Memory.{update}
use snax_rebase.Sync.Barrier.Safety.{IsSpinning, barrier_safe, barrier_live}

-- Ten iterations
abbrev ten : Bounds
ten = record { lower = 0; upper = 9; stride = 0; last_iter = some 0 }

abbrev ten_loop : IsLoop 4 1 ten
ten_loop = record {
  runs = omega arith;
  steps = omega arith;
  small = omega arith;
  some_threads = omega arith;
  few_threads = omega arith;
}

plain_covers_example :
    ((0 ≤ 5) × (5 ≤ 9)) ↔ ((k : ℕ) × (k < 4) × Executes (init_plain (team_of 4 k) ten 1) 5)
plain_covers_example = plain_covers 4 ten ten_loop 5

-- The second of the four threads has the iterations 3 to 5.
second_runs_five : Executes (init_plain (team_of 4 1) ten 1) 5
unfolding init_plain plain_lower plain_upper plain_chunk plain_quota left_over takes_extra loop_size
    xor
second_runs_five = (omega arith, omega arith)

plain_disjoint_example : ◌≡◌ {A = ℕ} 1 1
plain_disjoint_example =
    plain_disjoint 4 ten ten_loop 5 1 1 (omega arith) (omega arith) second_runs_five
      second_runs_five

-- Eleven multiples of 3
abbrev by_threes : Bounds
by_threes = record { lower = 0; upper = 30; stride = 0; last_iter = none }

abbrev by_threes_loop : IsLoop 4 3 by_threes
by_threes_loop = record {
  runs = omega arith;
  steps = omega arith;
  small = omega arith;
  some_threads = omega arith;
  few_threads = omega arith;
}

strided_start_example :
    plain_lower (team_of 4 (2 + 1)) by_threes 3 + (2 + 1) * (3 - 1)
    ≡ plain_upper (team_of 4 2) by_threes 3 + 3
strided_start_example = strided_start 4 3 by_threes by_threes_loop 2 (omega arith) refl

abbrev no_words : Words
no_words _ = 0

abbrev two_args : List ℕ
two_args = 1 ∷ 2 ∷ []

fork_calls_once_example :
    microtask_wrapper (length two_args) (store_args 0x400 two_args no_words)
    ≡ call (u32 0x400) (map u32 two_args) ∷ []
fork_calls_once_example = fork_calls_once 0x400 two_args no_words (omega arith)

abbrev ten_args : List ℕ
ten_args = 1 ∷ 2 ∷ 3 ∷ 4 ∷ 5 ∷ 6 ∷ 7 ∷ 8 ∷ 9 ∷ 10 ∷ []

wrapper_falls_through_example :
    microtask_wrapper (length ten_args) (store_args 0x400 ten_args no_words)
    ≡ map
        (λ k. call (u32 0x400) (map u32 ten_args ++ argv_from (1 + length ten_args) k no_words))
        (counts 0 (13 - length ten_args))
wrapper_falls_through_example =
    wrapper_falls_through 0x400 ten_args no_words (omega arith) (omega arith)

-- Thread 0 of two has entered the barrier, and then waits.
abbrev one_inside : System
one_inside = record { shared = init.shared; pc = update init.pc 0 (entered 0 0) }

abbrev one_waits : System
one_waits = record {
  shared = record { cnt = 1; iteration = 0 };
  pc = update one_inside.pc 0 (waiting 0 0);
}

abbrev one_waits_Reach : Reach 2 one_waits
one_waits_Reach =
    later (later start (pick 0 (omega arith) enter)) (pick 0 (omega arith) (arrive (omega arith)))

barrier_safe_example : completed (one_waits.pc 0) ≤ arrivals (one_waits.pc 1)
barrier_safe_example =
    barrier_safe (omega arith) (omega arith) one_waits_Reach 0 1 (omega arith) (omega arith)

barrier_live_example : ¬ ((i : ℕ) → i < 2 → IsSpinning one_waits.shared (one_waits.pc i))
barrier_live_example = barrier_live (omega arith) (omega arith) one_waits_Reach
