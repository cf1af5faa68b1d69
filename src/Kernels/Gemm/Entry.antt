-- ===== src/Kernels/Gemm/Entry.antt =====
-- What the matrix product of one core leaves in each element (sw/blas/gemm/src/gemm_fp64.h).
use snax_rebase.Base.{ℕ, ◌+◌, ◌*◌, ◌^◌, ◌≤◌, ◌<◌, ◌≡◌, ◌≢◌, arith, mod-eq_of_lt}
use snax_rebase.Base.Grid.{loop_off, loop_at, row_unique}
use snax_rebase.Base.Memory.{update_self, update_ne}
use snax_rebase.Base.Words.{u32}
use snax_rebase.Kernels.Float.{Float}
use snax_rebase.Kernels.Gemm.{Operand, multiply_opt, accumulate, gemm_cell, gemm_naive}

-- The result fits the address space, and a row fits its leading dimension.
pub record Fits (m n ld : ℕ) : Type 0 where
  pub columns : n ≤ ld
  pub rows : m * ld < 2 ^ 32

row_end : (i m ld j n : ℕ) → i < m → j < n → n ≤ ld → i * ld + j < m * ld
row_end i m ld j n hi hj h = grind arith

pub index_exact : (i m ld j n : ℕ) → Fits m n ld → i < m → j < n → u32 (i * ld + j) ≡ i * ld + j
index_exact i m ld j n fits hi hj =
    mod-eq_of_lt (omega (arith, row_end i m ld j n hi hj fits.columns, fits.rows))

module _ {A : Type 0} (f : Float A) (size_m size_n size_k : ℕ) (a b : Operand A) (start ld : ℕ)
    (beta : A) (fits : Fits size_m size_n ld) where
  cell_off :
      (m n y : ℕ) (c : ℕ → A)
      → m < size_m
      → n < size_n
      → start + (m * ld + n) ≢ y
      → gemm_cell f size_m size_k a b start ld beta m n c y ≡ c y
  unfolding gemm_cell
  cell_off m n y c hm hn h = rw (index_exact m size_m ld n size_n fits hm hn) (update_ne c _ y _ h)

  cell_at :
      (m n : ℕ) (c : ℕ → A)
      → m < size_m
      → n < size_n
      → gemm_cell f size_m size_k a b start ld beta m n c (start + (m * ld + n))
        ≡ accumulate f size_m size_k a b m n (multiply_opt f (c (start + (m * ld + n))) beta)
  unfolding gemm_cell
  cell_at m n c hm hn = rw (index_exact m size_m ld n size_n fits hm hn) (update_self c _ _)

  -- No element outside the rows of the result changes.
  pub naive_off :
      (y : ℕ) (c : ℕ → A)
      → ((m n : ℕ) → m < size_m → n < size_n → start + (m * ld + n) ≢ y)
      → gemm_naive f size_m size_n size_k a b start ld beta c y ≡ c y
  unfolding gemm_naive
  naive_off y c h =
      loop_off _ y size_m c
        (λ m d hm. loop_off _ y size_n d (λ n e hn. cell_off m n y e hm hn (h m n hm hn)))

  apart :
      (m n m' n' : ℕ)
      → n < size_n
      → n' < size_n
      → start + (m * ld + n) ≡ start + (m' * ld + n')
      → (m ≡ m') × (n ≡ n')
  apart m n m' n' hn hn' e =
      row_unique m n m' n' ld (omega (arith, fits.columns)) (omega (arith, fits.columns))
        (omega (arith, e))

  -- `gemm_fp64_naive` leaves in element `(m, n)` of the result the sum over `k` of the products of the
  -- elements that its subscripts name, added from the left to the element times `beta`, or to zero for
  -- `beta` zero. The rows have to fit the leading dimension, and the result the address space.
  pub gemm_naive_entry :
      (m n : ℕ) (c : ℕ → A)
      → m < size_m
      → n < size_n
      → gemm_naive f size_m size_n size_k a b start ld beta c (start + (m * ld + n))
        ≡ accumulate f size_m size_k a b m n (multiply_opt f (c (start + (m * ld + n))) beta)
  unfolding gemm_naive
  gemm_naive_entry m n c hm hn =
      loop_at _ _ size_m c m (λ v. accumulate f size_m size_k a b m n (multiply_opt f v beta)) hm
        (λ i d hi ne.
          loop_off _ _ size_n d
            (λ j e hj. cell_off i j _ e hi hj (λ eq. ne (apart i j m n hj hn eq).0)))
        (λ d.
          loop_at _ _ size_n d n (λ v. accumulate f size_m size_k a b m n (multiply_opt f v beta))
            hn (λ j e hj ne. cell_off m j _ e hm hj (λ eq. ne (apart m j m n hj hn eq).1))
            (λ e. cell_at m n e hm hn))
