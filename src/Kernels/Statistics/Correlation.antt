-- ===== src/Kernels/Statistics/Correlation.antt =====
-- What `kernel_correlation` computes (sw/apps/correlation/src/correlation.h).
use snax_rebase.Base.{
  ℕ, zero, suc, ◌*◌, ◌/◌, ◌^◌, ◌<◌, ◌≤◌, ◌≡◌, refl, sym, ap, ap₂, subst, ◌∙◌, arith, ℕ_discrete,
}
use snax_rebase.Base.Loops.{loop, loop-ext}
use snax_rebase.Base.Memory.{update, update_self, update_ne}
use snax_rebase.Kernels.Float.{Float}
use snax_rebase.Kernels.Shares.{cluster_share, cluster_share_lem}
use snax_rebase.Kernels.Statistics.{
  cell, Standard, column_mean, center, product_sum, deviation, standardize, kernel_correlation,
}
use snax_rebase.Kernels.Statistics.Center.{column_mean-ext, center_before}
use snax_rebase.Kernels.Statistics.Covariance.{
  square_room, shared-le, codeviation, product_sum-codeviation, shared_rows,
}

module _ {A : Type 0} (f : Float A) (size_n size_m : ℕ) where
  -- The samples are centred as in `kernel_covariance`.
  values_lem :
      (count : ℕ) (s : Standard A)
      → (loop count (standardize f size_n size_m) s).values
        ≡ loop count (center f size_n size_m) s.values
  unfolding loop standardize
  values_lem zero s = refl
  values_lem (suc count) s = ap (center f size_n size_m count) (values_lem count s)

  module _ (rows : size_n * size_m < 2 ^ 32) where
    -- The deviation of a column depends on that column alone.
    deviation-ext :
        (c d : ℕ → A) (i : ℕ)
        → ((k : ℕ) → k < size_n → c (cell size_m k i) ≡ d (cell size_m k i))
        → deviation f size_n size_m c i ≡ deviation f size_n size_m d i
    unfolding deviation
    deviation-ext c d i h =
        ap
          (λ m. f.sqrt (
            f.div
              (loop size_n
                (λ k a.
                  f.add a (f.mul (f.sub (c (cell size_m k i)) m) (f.sub (c (cell size_m k i)) m)))
                f.zero)
              (f.of_nat size_n)))
          (column_mean-ext f size_n size_m rows c d i h)
        ∙ ap (λ x. f.sqrt (f.div x (f.of_nat size_n)))
            (loop-ext size_n _ _ f.zero (λ k s hk.
              ap
                (λ x. f.add s (
                  f.mul (f.sub x (column_mean f size_n size_m d i))
                    (f.sub x (column_mean f size_n size_m d i))))
                (h k hk)))

    stddev_lem :
        (count i : ℕ) (s : Standard A)
        → count ≤ size_m
        → i < count
        → (loop count (standardize f size_n size_m) s).stddev i
          ≡ deviation f size_n size_m s.values i
    unfolding loop standardize
    stddev_lem zero i s all hi = absurd (omega arith)
    stddev_lem (suc count) i s all hi = elim (ℕ_discrete count i) [
      | yes same ↦
          subst
            (λ x.
              update (loop count (standardize f size_n size_m) s).stddev count
                (deviation f size_n size_m (loop count (standardize f size_n size_m) s).values
                  count)
                x
              ≡ deviation f size_n size_m s.values x)
            same
            (update_self (loop count (standardize f size_n size_m) s).stddev count _
              ∙ deviation-ext (loop count (standardize f size_n size_m) s).values s.values count
                  (λ k hk.
                    ap (λ c. c (cell size_m k count)) (values_lem count s)
                    ∙ center_before f size_n size_m rows count k s.values (omega arith) hk))
      | no other ↦
          update_ne ((loop count (standardize f size_n size_m) s).stddev) count i
            (deviation f size_n size_m (loop count (standardize f size_n size_m) s).values count)
            other
          ∙ stddev_lem count i s (omega arith) (omega arith)
    ]

    -- On all compute cores of a cluster `kernel_correlation` leaves in the elements `(i, j)` and `(j, i)`
    -- of the result, where `j` is at most `i` and `i` is one of the first attributes, as many as there
    -- are cores, times the attributes of each, the sum over the samples of the products of the
    -- distances of the two attributes from their means, over the number of samples times the standard
    -- deviations of both, which are those of the samples as they were given. Both matrices have to fit
    -- the address space.
    pub correlation_elements :
        (cores : ℕ) (samples stddev corr : ℕ → A) (i j : ℕ)
        → size_m * size_m < 2 ^ 32
        → i < cores * (size_m / cores)
        → j ≤ i
        → let result = (kernel_correlation f size_n size_m cores samples stddev corr).square in
          let value = f.div (codeviation f size_n size_m samples i j) (
            f.mul
              (f.mul (f.of_nat size_n) (deviation f size_n size_m samples i))
              (deviation f size_n size_m samples j)) in
          (result (cell size_m i j) ≡ value) × (result (cell size_m j i) ≡ value)
    unfolding kernel_correlation
    correlation_elements cores samples stddev corr i j squares hi hj =
        let start : Standard A = record { values = samples; stddev = stddev } in
        let shared : Standard A = cluster_share cores size_m (standardize f size_n size_m) start in
        let few = square_room size_m squares in
        let same : shared ≡ loop (cores * (size_m / cores)) (standardize f size_n size_m) start =
          cluster_share_lem cores size_m (standardize f size_n size_m) start few in
        let values_same : shared.values
            ≡ cluster_share cores size_m (center f size_n size_m) samples =
          ap (λ s. s.values) same
          ∙ values_lem (cores * (size_m / cores)) start
          ∙ sym (cluster_share_lem cores size_m (center f size_n size_m) samples few) in
        let sum =
          ap (λ d. product_sum f size_n size_m d i j) values_same
          ∙ product_sum-codeviation f size_n size_m samples cores rows squares i j hi
              (omega arith) in
        let deviation_i =
          ap (λ s. s.stddev i) same
          ∙ stddev_lem (cores * (size_m / cores)) i start (shared-le cores size_m) hi in
        let deviation_j =
          ap (λ s. s.stddev j) same
          ∙ stddev_lem (cores * (size_m / cores)) j start (shared-le cores size_m) (omega arith) in
        let value =
          ap₂ f.div sum
            (ap₂ (λ x y. f.mul (f.mul (f.of_nat size_n) x) y) deviation_i deviation_j) in
        let set = shared_rows f size_n size_m samples cores rows squares _ corr i j hi hj in
        (set.0 ∙ value, set.1 ∙ value)
