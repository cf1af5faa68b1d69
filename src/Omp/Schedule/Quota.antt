-- ===== src/Omp/Schedule/Quota.antt =====
-- The quota of a thread under the unchunked static schedule, for any positive increment
-- (sw/snRuntime/src/omp/kmp.c).
use snax_rebase.Base.{ℕ, ◌+◌, ◌-◌, ◌*◌, ◌/◌, ◌%◌, ◌^◌, ◌≤◌, ◌<◌, ◌≡◌, arith, ltb, if◌then◌else◌}
use snax_rebase.Base.Exact.{mul_exact, sub_exact, div_u32_exact, div_i32_exact, lt_i32_exact}
use native.Mathlib.Nat.{div-add-mod', div-le_self, div-mul-le_self}
use snax_rebase.Omp.Schedule.{
  Team, Bounds, loop_size, plain_quota, left_over, takes_extra, plain_chunk,
}

-- A loop `for (i = lower; i <= upper; i += incr)` that runs and whose bounds are not negative,
-- shared by `n` threads.
pub record IsLoop (n incr : ℕ) (b : Bounds) : Type 0 where
  pub runs : b.lower ≤ b.upper
  pub steps : 0 < incr
  pub small : b.upper + incr < 2 ^ 31
  pub some_threads : 0 < n
  pub few_threads : n < 256

abbrev pub team_of : ℕ → ℕ → Team
team_of n k = record { nb_threads = n; thread_num = k }

-- The number of iterations.
abbrev pub size_of : ℕ → Bounds → ℕ
size_of incr b = (b.upper - b.lower) / incr + 1

module _ (n incr : ℕ) (b : Bounds) (v : IsLoop n incr b) where
  open v use {runs, steps, small, some_threads, few_threads}

  abbrev pub size : ℕ
  size = size_of incr b

  pub size_small : size < 2 ^ 31
  size_small = omega (arith, div-le_self (b.upper - b.lower) incr, steps, small)

  pub size_lem : loop_size b incr ≡ size
  unfolding loop_size
  size_lem =
      rw
        (
          sub_exact b.upper b.lower runs (omega (arith, small)),
          div_i32_exact (b.upper - b.lower) incr (omega (arith, small)) steps
              (omega (arith, small)),
        )
        (omega (arith, size_small))

  pub quota_le : size / n * n + size % n ≡ size
  quota_le = div-add-mod' size n

  pub quota_lem : (k : ℕ) → plain_quota (team_of n k) b incr ≡ size / n
  unfolding plain_quota
  quota_lem k = rw size_lem (div_u32_exact size n some_threads)

  pub left_over_lem : (k : ℕ) → left_over (team_of n k) b incr ≡ size % n
  unfolding left_over
  left_over_lem k =
      rw (size_lem, quota_lem k)
        (rw (mul_exact (size / n) n (omega (arith, quota_le, size_small))) (
          rw (sub_exact size (size / n * n) (omega (arith, quota_le)) (omega (arith, size_small)))
            (omega (arith, quota_le))))

  pub extra_lem : (k : ℕ) → k < n → takes_extra (team_of n k) b incr ≡ ltb k (size % n)
  unfolding takes_extra
  extra_lem k h =
      rw (left_over_lem k) (
        lt_i32_exact k (size % n) (omega (arith, few_threads))
          (omega (arith, quota_le, size_small)))

  pub chunk_lem :
      (k : ℕ)
      → k < n
      → plain_chunk (team_of n k) b incr ≡ (if ltb k (size % n) then size / n + 1 else size / n)
  unfolding plain_chunk
  chunk_lem k h = rw (extra_lem k h, quota_lem k) (ground (arith, div-le_self size n, size_small))

  -- The iterations do not run over the bound by more than one increment.
  pub span_le : size * incr ≤ b.upper - b.lower + incr
  span_le = omega (arith, div-mul-le_self (b.upper - b.lower) incr)
