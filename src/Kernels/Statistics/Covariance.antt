-- ===== src/Kernels/Statistics/Covariance.antt =====
-- What `kernel_covariance` computes (sw/apps/covariance/src/covariance.h).
use snax_rebase.Base.{ℕ, zero, suc, ◌*◌, ◌/◌, ◌^◌, ◌<◌, ◌≤◌, ◌≡◌, ap, ap₂, ◌∙◌, arith}
use snax_rebase.Base.Loops.{loop, loop-ext}
use snax_rebase.Kernels.Float.{Float}
use snax_rebase.Kernels.Shares.{cluster_share, cluster_share_lem}
use snax_rebase.Kernels.Statistics.{cell, column_mean, center, product_sum, set_row}
use snax_rebase.Kernels.Statistics.Center.{center_columns}
use snax_rebase.Kernels.Statistics.Pairs.{set_rows}
use native.Mathlib.Nat.{div-mul-le_self, mul_comm}

pub square_room : (m : ℕ) → m * m < 2 ^ 32 → m < 2 ^ 32
square_room zero h = omega arith
square_room (suc m) h = grind arith

pub shared-le : (cores n : ℕ) → cores * (n / cores) ≤ n
shared-le cores n = omega (arith, div-mul-le_self n cores, mul_comm cores (n / cores))

module _ {A : Type 0} (f : Float A) (size_n size_m : ℕ) (samples : ℕ → A) where
  -- The distance of a sample from the mean of its attribute, and the sum of the products of two
  pub distance : ℕ → ℕ → A
  distance k i = f.sub (samples (cell size_m k i)) (column_mean f size_n size_m samples i)

  pub codeviation : ℕ → ℕ → A
  codeviation i j = loop size_n (λ k tmp. f.add tmp (f.mul (distance k i) (distance k j))) f.zero

  module _ (cores : ℕ) (rows : size_n * size_m < 2 ^ 32) (squares : size_m * size_m < 2 ^ 32) where
    pub shared_columns :
        (i k : ℕ)
        → i < cores * (size_m / cores)
        → k < size_n
        → cluster_share cores size_m (center f size_n size_m) samples (cell size_m k i)
          ≡ distance k i
    unfolding distance
    shared_columns i k hi hk =
        ap (λ d. d (cell size_m k i))
          (cluster_share_lem cores size_m (center f size_n size_m) samples
            (square_room size_m squares))
        ∙ center_columns f size_n size_m rows (cores * (size_m / cores)) i k samples
            (shared-le cores size_m) hi hk

    pub product_sum-codeviation :
        (i j : ℕ)
        → i < cores * (size_m / cores)
        → j < cores * (size_m / cores)
        → product_sum f size_n size_m
            (cluster_share cores size_m (center f size_n size_m) samples)
            i
            j
          ≡ codeviation i j
    unfolding product_sum codeviation
    product_sum-codeviation i j hi hj = loop-ext size_n _ _ f.zero (λ k tmp hk.
        ap₂ (λ x y. f.add tmp (f.mul x y)) (shared_columns i k hi hk) (shared_columns j k hj hk))

    -- The cores set each pair of elements of their rows.
    pub shared_rows :
        (g : ℕ → ℕ → A) (square : ℕ → A) (i j : ℕ)
        → i < cores * (size_m / cores)
        → j ≤ i
        → (cluster_share cores size_m (set_row size_m g) square (cell size_m i j) ≡ g i j)
          × (cluster_share cores size_m (set_row size_m g) square (cell size_m j i) ≡ g i j)
    shared_rows g square i j hi hj =
        let all =
          cluster_share_lem cores size_m (set_row size_m g) square (square_room size_m squares) in
        let set =
          set_rows size_m squares g (cores * (size_m / cores)) i j square (shared-le cores size_m)
            hi hj in
        (ap (λ s. s (cell size_m i j)) all ∙ set.0, ap (λ s. s (cell size_m j i)) all ∙ set.1)
