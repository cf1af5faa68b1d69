-- ===== src/Kernels/Vectors.antt =====
-- `axpy` without stream registers (sw/blas/axpy/src/axpy.h) and `kernel_atax`
-- (sw/apps/atax/src/atax.h). The arrays do not overlap.
pub mod Entries
use snax_rebase.Base.{ℕ, ◌+◌, ◌*◌, ◌/◌}
use snax_rebase.Base.Loops.{loop}
use snax_rebase.Base.Memory.{update}
use snax_rebase.Base.Words.{add_u32, mul_u32}
use snax_rebase.Kernels.Float.{Float}
use snax_rebase.Kernels.Shares.{cluster_share}

module _ {A : Type 0} (f : Float A) where
  unfoldable pub axpy_round : A → (ℕ → A) → (ℕ → A) → ℕ → (ℕ → A) → ℕ → A
  axpy_round a x y offset z = update z offset (f.add (f.mul a (x offset)) (y offset))

  -- `axpy` on all compute cores
  unfoldable pub axpy : ℕ → ℕ → A → (ℕ → A) → (ℕ → A) → (ℕ → A) → ℕ → A
  axpy cores n a x y z = cluster_share cores n (axpy_round a x y) z

  -- The two sums of `kernel_atax`: row `i` of the matrix with `x`, and its column `j` with `tmp`
  unfoldable pub row_sum : ℕ → (ℕ → A) → (ℕ → A) → ℕ → A
  row_sum size_n a x i =
      loop size_n (λ j tmp_fs. f.add tmp_fs (f.mul (a (add_u32 (mul_u32 i size_n) j)) (x j))) f.zero

  unfoldable pub column_sum : ℕ → ℕ → (ℕ → A) → (ℕ → A) → ℕ → A
  column_sum size_m size_n a tmp j =
      loop size_m (λ i tmp_fs. f.add tmp_fs (f.mul (a (add_u32 (mul_u32 i size_n) j)) (tmp i)))
        f.zero

  -- What the cores leave in `tmp` before the barrier, and in `y` after it
  unfoldable pub atax_tmp : ℕ → ℕ → ℕ → (ℕ → A) → (ℕ → A) → (ℕ → A) → ℕ → A
  atax_tmp cores size_m size_n a x tmp =
      cluster_share cores size_m (λ i t. update t i (row_sum size_n a x i)) tmp

  unfoldable pub kernel_atax : ℕ → ℕ → ℕ → (ℕ → A) → (ℕ → A) → (ℕ → A) → (ℕ → A) → ℕ → A
  kernel_atax cores size_m size_n a x y tmp =
      cluster_share cores size_n
        (λ j t. update t j (column_sum size_m size_n a (atax_tmp cores size_m size_n a x tmp) j)) y
