-- ===== src/Kernels/Statistics.antt =====
-- `kernel_covariance` (sw/apps/covariance/src/covariance.h) and `kernel_correlation`
-- (sw/apps/correlation/src/correlation.h). The arrays do not overlap.
pub mod Cells
pub mod Center
pub mod Pairs
pub mod Covariance
pub mod Correlation
use snax_rebase.Base.{ℕ, ◌+◌, ◌*◌, ◌/◌}
use snax_rebase.Base.Loops.{loop}
use snax_rebase.Base.Memory.{update}
use snax_rebase.Base.Words.{add_u32, sub_u32, mul_u32}
use snax_rebase.Kernels.Float.{Float}
use snax_rebase.Kernels.Shares.{cluster_share}

-- The subscript `k * M + i`
abbrev pub cell : ℕ → ℕ → ℕ → ℕ
cell size_m k i = add_u32 (mul_u32 k size_m) i

-- What a kernel leaves in `data` and in the square matrix
pub record Outcome (A : Type 0) : Type 0 where
  pub deviations : ℕ → A
  pub square : ℕ → A

-- `data` and `stddev` before the barrier of `kernel_correlation`
pub record Standard (A : Type 0) : Type 0 where
  pub values : ℕ → A
  pub stddev : ℕ → A

module _ {A : Type 0} (size_m : ℕ) where
  -- The two assignments to the element and to its mirror image
  unfoldable pub set_pair : ℕ → ℕ → A → (ℕ → A) → ℕ → A
  set_pair i j v square =
      let s = update square (cell size_m i j) v in update s (cell size_m j i) (s (cell size_m i j))

  -- The loop over `j` up to `i`, with `g i j` the value of the element
  unfoldable pub set_row : (ℕ → ℕ → A) → ℕ → (ℕ → A) → ℕ → A
  set_row g i square = loop (i + 1) (λ j. set_pair i j (g i j)) square

-- `size_n` is the number of samples, `size_m` that of attributes.
module _ {A : Type 0} (f : Float A) (size_n size_m : ℕ) where
  unfoldable pub column_mean : (ℕ → A) → ℕ → A
  column_mean samples i =
      f.div (loop size_n (λ k mean. f.add mean (samples (cell size_m k i))) f.zero)
        (f.of_nat size_n)

  -- `data[k * M + i] -= mean` for every sample
  unfoldable pub subtract_mean : A → ℕ → (ℕ → A) → ℕ → A
  subtract_mean mean i samples =
      loop size_n (λ k d. update d (cell size_m k i) (f.sub (d (cell size_m k i)) mean)) samples

  unfoldable pub center : ℕ → (ℕ → A) → ℕ → A
  center i samples = subtract_mean (column_mean samples i) i samples

  -- The sum over the samples of the product of two attributes
  unfoldable pub product_sum : (ℕ → A) → ℕ → ℕ → A
  product_sum samples i j =
      loop size_n
        (λ k tmp. f.add tmp (f.mul (samples (cell size_m k i)) (samples (cell size_m k j)))) f.zero

  unfoldable pub kernel_covariance : ℕ → (ℕ → A) → (ℕ → A) → Outcome A
  kernel_covariance cores samples cov =
      let d = cluster_share cores size_m center samples in
      record {
        deviations = d;
        square =
            cluster_share cores size_m
              (set_row size_m (λ i j. f.div (product_sum d i j) (f.of_nat (sub_u32 size_n 1)))) cov;
      }

  unfoldable pub deviation : (ℕ → A) → ℕ → A
  deviation samples i =
      let mean = column_mean samples i in
      let accum =
        loop size_n
          (λ k a. f.add a (
            f.mul (f.sub (samples (cell size_m k i)) mean)
              (f.sub (samples (cell size_m k i)) mean)))
          f.zero in
      f.sqrt (f.div accum (f.of_nat size_n))

  unfoldable pub standardize : ℕ → Standard A → Standard A
  standardize i s = record {
    values = center i s.values;
    stddev = update s.stddev i (deviation s.values i);
  }

  unfoldable pub kernel_correlation : ℕ → (ℕ → A) → (ℕ → A) → (ℕ → A) → Outcome A
  kernel_correlation cores samples stddev corr =
      let s =
        cluster_share cores size_m standardize (record { values = samples; stddev = stddev }) in
      record {
        deviations = s.values;
        square =
            cluster_share cores size_m
              (set_row size_m (λ i j.
                f.div (product_sum s.values i j)
                  (f.mul (f.mul (f.of_nat size_n) (s.stddev i)) (s.stddev j))))
              corr;
      }
