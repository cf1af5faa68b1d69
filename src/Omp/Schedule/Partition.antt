-- ===== src/Omp/Schedule/Partition.antt =====
-- With unit increment the unchunked static schedule deals out every iteration once
-- (sw/snRuntime/src/omp/kmp.c).
use snax_rebase.Base.{
  ℕ, ◌+◌, ◌-◌, ◌*◌, ◌/◌, ◌%◌, ◌^◌, ◌≤◌, ◌<◌, ◌≡◌, ◌↔◌, some, arith, Bool-cases, inl, inr, ltb→lt,
  not_ltb→le, ltb, ◌==◌, ◌&&◌,
}
use snax_rebase.Base.Words.{le_i32}
use native.Mathlib.Nat.{div-one}
use snax_rebase.Omp.Schedule.{Bounds, init_plain, flag, plain_lower, plain_upper}
use snax_rebase.Omp.Schedule.Quota.{
  IsLoop, team_of, size_of, quota_le, extra_lem, chunk_lem, left_over_lem,
}
use snax_rebase.Omp.Schedule.Share.{
  share, share_all, share_next, share_le, share_find, share_unique,
}

module _ (n : ℕ) (b : Bounds) (v : IsLoop n 1 b) where
  open v use {runs, small, some_threads, few_threads}

  abbrev size : ℕ
  size = size_of 1 b

  size_unit : size ≡ b.upper - b.lower + 1
  size_unit = omega (arith, div-one (b.upper - b.lower))

  row : (k : ℕ) → k < n → k * (size / n) + size / n ≤ size / n * n
  row k h = grind arith

  lower_lem : (k : ℕ) → k < n → plain_lower (team_of n k) b 1 ≡ b.lower + share size n k
  unfolding plain_lower share
  lower_lem k h =
      rw (extra_lem n 1 b v k h, chunk_lem n 1 b v k h, left_over_lem n 1 b v k)
        (elim (Bool-cases (ltb k (size % n))) [
          | inl e ↦ rw e (omega (arith, row k h, quota_le n 1 b v, size_unit, ltb→lt _ _ e))
          | inr e ↦ rw e (omega (arith, row k h, quota_le n 1 b v, size_unit, not_ltb→le _ _ e))
        ])

  zero-share : (q m : ℕ) → q ≡ 0 → q * m ≡ 0
  zero-share q m e = grind arith

  upper_lem : (k : ℕ) → k < n → plain_upper (team_of n k) b 1 + 1 ≡ b.lower + share size n (k + 1)
  unfolding plain_upper share
  upper_lem k h =
      rw (lower_lem k h, chunk_lem n 1 b v k h)
        (elim (Bool-cases (ltb k (size % n))) [
          | inl e ↦ rw e (omega (arith, row k h, quota_le n 1 b v, size_unit, ltb→lt _ _ e))
          | inr e ↦ rw e (
              ground (
                arith,
                row k h,
                quota_le n 1 b v,
                size_unit,
                not_ltb→le _ _ e,
                zero-share (size / n) n,
              ))
        ])

flag_iff :
    (lo up last : ℕ)
    → lo < 2 ^ 31
    → up ≤ last
    → last + 1 < 2 ^ 31
    → (some (flag (up == last && le_i32 lo last)) ≡ some 1) ↔ ((lo ≤ last) × (last < up + 1))
flag_iff lo up last small le h = (λ e. ground arith, λ e. ground arith)

-- Thread `k` executes iteration `i`.
abbrev pub Executes : Bounds → ℕ → Type 0
Executes r i = (r.lower ≤ i) × (i < r.upper + 1)

module _ (n : ℕ) (b : Bounds) (v : IsLoop n 1 b) where
  abbrev part : ℕ → Bounds
  part k = init_plain (team_of n k) b 1

  -- For a loop that runs, with bounds below 2^31 - 1 and 1 to 255 threads: the
  -- ranges that the threads 0 to `n - 1` of a team get from the unchunked static schedule with
  -- increment 1 cover the loop and nothing else: an iteration lies between the lower and the upper
  -- bound exactly when some thread executes it.
  pub plain_covers :
      (i : ℕ) → ((b.lower ≤ i) × (i ≤ b.upper)) ↔ ((k : ℕ) × (k < n) × Executes (part k) i)
  unfolding init_plain
  plain_covers i = (
    λ (lo, hi).
        let (k, lt, from, to) =
          share_find (size_of 1 b) n n (i - b.lower)
            (omega (arith, share_all (size_of 1 b) n v.some_threads, size_unit n b v)) in
        (k, lt, (omega (arith, lower_lem n b v k lt), omega (arith, upper_lem n b v k lt))),
    λ (k, hk, e). (
      omega (arith, lower_lem n b v k hk),
      omega (
        arith,
        upper_lem n b v k hk,
        share_le (size_of 1 b) n (k + 1) n (omega arith),
        share_all (size_of 1 b) n v.some_threads,
        size_unit n b v,
        v.runs,
      ),
    ),
  )

  -- For a loop that runs, with bounds below 2^31 - 1 and 1 to 255 threads: under
  -- the unchunked static schedule with increment 1 no iteration is executed by two threads.
  pub plain_disjoint :
      (i j k : ℕ) → j < n → k < n → Executes (part j) i → Executes (part k) i → j ≡ k
  unfolding init_plain
  plain_disjoint i j k hj hk ej ek =
      share_unique (size_of 1 b) n j k (i - b.lower) (omega (arith, lower_lem n b v j hj))
        (omega (arith, upper_lem n b v j hj, lower_lem n b v j hj))
        (omega (arith, lower_lem n b v k hk))
        (omega (arith, upper_lem n b v k hk, lower_lem n b v k hk))

  -- For a loop that runs, with increment 1, bounds below 2^31 - 1 and 1 to 255 threads: under the
  -- unchunked static schedule the numbers of iterations of two threads differ by at most one, and a
  -- thread gets the flag for the last iteration exactly when its range holds that iteration.
  pub plain_balanced :
      (j k seen : ℕ)
      → j < n
      → k < n
      → b.last_iter ≡ some seen
      → ((part j).upper + 1 - (part j).lower ≤ (part k).upper + 1 - (part k).lower + 1)
        × (((part k).last_iter ≡ some 1) ↔ Executes (part k) b.upper)
  unfolding init_plain
  plain_balanced j k seen hj hk e = (
    omega (
      arith,
      upper_lem n b v j hj,
      lower_lem n b v j hj,
      upper_lem n b v k hk,
      lower_lem n b v k hk,
      share_next (size_of 1 b) n j,
      share_next (size_of 1 b) n k,
    ),
    simp e (
        flag_iff (part k).lower (part k).upper b.upper
          (omega (
            arith,
            lower_lem n b v k hk,
            share_le (size_of 1 b) n k n (omega arith),
            share_all (size_of 1 b) n v.some_threads,
            size_unit n b v,
            v.small,
            v.runs,
          ))
          (omega (
            arith,
            upper_lem n b v k hk,
            share_le (size_of 1 b) n (k + 1) n (omega arith),
            share_all (size_of 1 b) n v.some_threads,
            size_unit n b v,
            v.runs,
          ))
          v.small),
  )
