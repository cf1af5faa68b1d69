-- ===== src/Omp/Schedule/Strided.antt =====
-- The unchunked static schedule with an increment above 1 (sw/snRuntime/src/omp/kmp.c): where the
-- first thread without an extra iteration starts.
use snax_rebase.Base.{
  ℕ, zero, suc, ◌+◌, ◌-◌, ◌*◌, ◌/◌, ◌%◌, ◌≤◌, ◌<◌, ◌≡◌, ◌≢◌, arith, lt→ltb, le→ltb,
}
use snax_rebase.Base.Exact.{mul_exact}
use native.Mathlib.Nat.{mod-lt}
use snax_rebase.Omp.Schedule.{Bounds, plain_lower, plain_upper}
use snax_rebase.Omp.Schedule.Quota.{
  IsLoop, team_of, size_of, quota_le, extra_lem, chunk_lem, left_over_lem, span_le, size_small,
}

mul_le_right : (a b c : ℕ) → a ≤ b → a * c ≤ b * c
mul_le_right a b c h = grind arith

mul_le_left : (a b c : ℕ) → a ≤ b → a * c ≤ b * c
mul_le_left a b c h = grind arith

pull_step : (k i : ℕ) → 0 < i → k + k * (i - 1) ≡ k * i
pull_step k zero h = absurd (omega arith)
pull_step k (suc i) h = let e : suc i - 1 ≡ i = omega arith in rw e (omega arith)

positive : (k i : ℕ) → 1 < i → (k + 1) * (i - 1) ≢ 0
positive k i h e = grind arith

module _ (n incr : ℕ) (b : Bounds) (v : IsLoop n incr b) where
  abbrev size : ℕ
  size = size_of incr b

  abbrev quota : ℕ
  quota = size / n

  -- Up to the left-over threads the shares stay inside the loop, also scaled by the increment.
  room :
      (k : ℕ)
      → k ≤ size % n
      → (k * (quota + 1) ≤ size)
        × (k * quota ≤ size)
        × (k * (quota + 1) * incr ≤ size * incr)
        × (k * quota * incr + quota * incr ≤ size * incr)
  room k r =
      let below = mod-lt size {m = n} v.some_threads in
      let whole = quota_le n incr b v in
      let inner : k * quota + quota ≤ quota * n =
        grind (arith, mul_le_left (k + 1) n quota (omega (arith, below))) in
      let total : k * (quota + 1) ≤ size = omega (arith, inner, whole) in
      (
        total,
        omega (arith, total),
        mul_le_right (k * (quota + 1)) size incr total,
        omega (arith, mul_le_right (k * quota + quota) size incr (omega (arith, inner, whole))),
      )

  extra_upper :
      (k : ℕ)
      → k < n
      → k < size % n
      → plain_upper (team_of n k) b incr + incr ≡ b.lower + (k + 1) * (quota + 1) * incr
  unfolding plain_upper plain_lower
  extra_upper k h e =
      rw (extra_lem n incr b v k h, chunk_lem n incr b v k h, lt→ltb k (size % n) e)
        (rw
          (mul_exact k (quota + 1)
            (omega (arith, room k (omega (arith, e)), size_small n incr b v)))
          (omega (
            arith,
            room (k + 1) (omega (arith, e)),
            room k (omega (arith, e)),
            span_le n incr b v,
            v.small,
            v.runs,
          )))

  rest_lower :
      (k : ℕ)
      → k < n
      → size % n ≡ k
      → plain_lower (team_of n k) b incr ≡ b.lower + k * quota * incr + k
  unfolding plain_lower
  rest_lower k h e =
      rw
        (
          extra_lem n incr b v k h,
          chunk_lem n incr b v k h,
          left_over_lem n incr b v k,
          le→ltb k (size % n) (omega (arith, e)),
        )
        (rw (mul_exact k quota (omega (arith, room k (omega (arith, e)), size_small n incr b v))) (
          omega
            (arith, e, room k (omega (arith, e)), span_le n incr b v, v.small, v.runs, v.steps)))

  -- Under the unchunked static schedule the first thread without an extra iteration starts
  -- `k * (incr - 1)` below the place one increment past the last iteration of the thread before it,
  -- where `k` counts the iterations left over,
  -- at least one: for a loop that runs, whose upper bound and increment stay below 2^31 together,
  -- and at most 255 threads.
  pub strided_start :
      (k : ℕ)
      → k + 1 < n
      → size % n ≡ k + 1
      → plain_lower (team_of n (k + 1)) b incr + (k + 1) * (incr - 1)
        ≡ plain_upper (team_of n k) b incr + incr
  strided_start k h e = omega (
    arith,
    rest_lower (k + 1) h e,
    extra_upper k (omega arith) (omega (arith, e)),
    pull_step (k + 1) incr v.steps,
  )
