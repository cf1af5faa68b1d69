-- ===== src/Kernels/Gemm.antt =====
-- The matrix products in plain C: `gemm_fp64_naive` of sw/blas/gemm/src/gemm_fp64.h, which
-- `gemm_fp32_naive` of gemm_fp32.h repeats for `float`, and their distribution over the cores of a
-- cluster, `sc_st_gemm` of gemm.h. A pointer is the index of its first element in an array.
pub mod Entry
pub mod Cores
pub mod Tiled
use snax_rebase.Base.{ℕ, ◌+◌, ◌*◌, ◌/◌, ◌%◌, ◌^◌, Bool, true, false, if◌then◌else◌}
use snax_rebase.Base.Loops.{loop}
use snax_rebase.Base.Memory.{update}
use snax_rebase.Base.Words.{u32, add_u32, mul_u32}
use snax_rebase.Kernels.Float.{Float}

-- A matrix operand: the array, the pointer, the leading dimension, and whether it is transposed
pub record Operand (A : Type 0) : Type 0 where
  pub elements : ℕ → A
  pub start : ℕ
  pub ld : ℕ
  pub transposed : Bool

-- The subscript of `A` in the branches without and with `ta`, and that of `B` with `tb`
unfoldable pub a_index : {A : Type 0} → ℕ → Operand A → ℕ → ℕ → ℕ
a_index size_m a m k =
    if a.transposed then u32 (k * size_m * a.ld + m * a.ld) else u32 (k + m * a.ld)

unfoldable pub b_index : {A : Type 0} → Operand A → ℕ → ℕ → ℕ
b_index b n k = if b.transposed then u32 (k + n * b.ld) else u32 (k * b.ld + n)

module _ {A : Type 0} (f : Float A) where
  unfoldable pub multiply_opt : A → A → A
  multiply_opt multiplicand multiplier =
      if f.is_nonzero multiplier then f.mul multiplicand multiplier else f.zero

  -- The innermost loop, from the first value of `c0`
  unfoldable pub accumulate : ℕ → ℕ → Operand A → Operand A → ℕ → ℕ → A → A
  accumulate size_m size_k a b m n c0 =
      loop size_k
        (λ k c0. f.add c0 (
          f.mul (a.elements (a.start + a_index size_m a m k))
            (b.elements (b.start + b_index b n k))))
        c0

  -- The body of the loops over `m` and `n`, for the matrix at `start` with leading dimension `ld`
  unfoldable pub gemm_cell : ℕ → ℕ → Operand A → Operand A → ℕ → ℕ → A → ℕ → ℕ → (ℕ → A) → ℕ → A
  gemm_cell size_m size_k a b start ld beta m n c =
      update c (start + u32 (m * ld + n))
        (accumulate size_m size_k a b m n (multiply_opt (c (start + u32 (m * ld + n))) beta))

  unfoldable pub gemm_naive : ℕ → ℕ → ℕ → Operand A → Operand A → ℕ → ℕ → A → (ℕ → A) → ℕ → A
  gemm_naive size_m size_n size_k a b start ld beta c =
      loop size_m (λ m. loop size_n (λ n. gemm_cell size_m size_k a b start ld beta m n)) c

  -- `sc_st_gemm` with `baseline` on the compute core `id` of `cores`
  unfoldable pub sc_st_gemm :
      ℕ → ℕ → ℕ → ℕ → ℕ → Operand A → Operand A → ℕ → ℕ → A → (ℕ → A) → ℕ → A
  sc_st_gemm cores id size_m size_n size_k a b start ldc beta c =
      gemm_naive (size_m / cores) size_n size_k
        (record a { start = a.start + mul_u32 id a.ld; ld = mul_u32 cores a.ld }) b
        (start + mul_u32 id ldc) (mul_u32 cores ldc) beta c

  -- All compute cores, whose order does not matter: they write different elements.
  unfoldable pub cluster_gemm : ℕ → ℕ → ℕ → ℕ → Operand A → Operand A → ℕ → ℕ → A → (ℕ → A) → ℕ → A
  cluster_gemm cores size_m size_n size_k a b start ldc beta c =
      loop cores (λ id. sc_st_gemm cores id size_m size_n size_k a b start ldc beta) c
