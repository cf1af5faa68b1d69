-- ===== src/Snax/Gemm.antt =====
-- target/snitch_cluster/sw/snax/gemm/src/snax-gemm-lib.c: the reference computation on the CPU, the
-- loading of the matrices and the check of the result. `int8_t` elements are their sign-extended
-- 32-bit patterns; an array is a function of its element index.
pub mod Product
pub mod Layout
use snax_rebase.Base.{
  ℕ, zero, suc, ◌+◌, ◌-◌, ◌*◌, ◌/◌, leb, Bool, true, false, ◌==◌, if◌then◌else◌, List, [], ◌∷◌,
  ◌++◌, not,
}
use snax_rebase.Base.Loops.{for_each, loop}
use snax_rebase.Base.Memory.{update}
use snax_rebase.Base.Words.{u32, add_u32, sub_u32, mul_u32}

-- snax-gemm-params.h
abbrev pub mesh_row : ℕ
mesh_row = 8

abbrev pub tile_size : ℕ
tile_size = 8

abbrev pub mesh_col : ℕ
mesh_col = 8

-- The two matrices of a tile and what is subtracted from their elements
pub record Operands : Type 0 where
  pub a : ℕ → ℕ
  pub b : ℕ → ℕ
  pub subtraction_a : ℕ
  pub subtraction_b : ℕ

-- What round `s` of the inner loop of `base_gemm` adds to element `i * n + j`
unfoldable pub term : ℕ → Operands → ℕ → ℕ → ℕ → ℕ
term k o i j s =
    mul_u32 (sub_u32 (o.a (i * k + s)) o.subtraction_a) (sub_u32 (o.b (s + j * k)) o.subtraction_b)

unfoldable pub base_gemm_cell : ℕ → ℕ → Operands → Bool → ℕ → ℕ → (ℕ → ℕ) → ℕ → ℕ
base_gemm_cell k n o clear i j c =
    loop k (λ s c. update c (i * n + j) (add_u32 (c (i * n + j)) (term k o i j s)))
      (if clear then update c (i * n + j) 0 else c)

unfoldable pub base_gemm : ℕ → ℕ → ℕ → Operands → Bool → (ℕ → ℕ) → ℕ → ℕ
base_gemm m k n o clear c = loop m (λ i. loop n (λ j. base_gemm_cell k n o clear i j)) c

-- The strides of the three matrices, in bytes
pub record Strides : Type 0 where
  pub innermost : ℕ
  pub ld : ℕ
  pub outer : ℕ

-- The byte offset of a submatrix, in unsigned arithmetic
unfoldable pub sub_offset : Strides → ℕ → ℕ → ℕ → ℕ
sub_offset s b row inner = u32 (b * s.outer + row * s.ld + inner * s.innermost)

-- The part of an array from an element on, and a change of that part put back
unfoldable pub from : ℕ → (ℕ → ℕ) → ℕ → ℕ
from o m x = m (o + x)

-- One tile of `batch_gemm_cpu`: `base_gemm` reads and writes through pointers into the arrays.
unfoldable pub batch_tile : Operands → Strides → Strides → Strides → ℕ → ℕ → ℕ → ℕ → (ℕ → ℕ) → ℕ → ℕ
batch_tile o sa sb sc b m n k c =
    let addr_c = sub_offset sc b m n / 4 in
    let tile = record o {
      a = from (sub_offset sa b m k) o.a;
      b = from (sub_offset sb b n k) o.b;
    } in
    λ x.
      if leb addr_c x
      then base_gemm mesh_row tile_size mesh_col tile (k == 0) (from addr_c c) (x - addr_c)
      else c x

unfoldable pub batch_gemm_cpu :
    ℕ → ℕ → ℕ → ℕ → Operands → Strides → Strides → Strides → (ℕ → ℕ) → ℕ → ℕ
batch_gemm_cpu batch m k n o sa sb sc =
    loop batch (λ b. loop m (λ m. loop n (λ n. loop k (λ k. batch_tile o sa sb sc b m n k))))

-- A transfer that `snrt_dma_start_1d` is called for
pub record Copy : Type 0 where
  pub dst : ℕ
  pub src : ℕ
  pub size : ℕ

-- The two loops of `load_input_data`
unfoldable pub load_a : ℕ → ℕ → ℕ → Strides → ℕ → ℕ → List Copy
load_a batch m k s local_a a = for_each batch (λ b. for_each m (λ i. for_each k (λ j.
    record {
      dst = u32 (local_a + sub_offset s b i j);
      src = u32 (
          a
          + (b * m * mesh_row * tile_size * k
              + i * mesh_row * tile_size * k
              + j * mesh_row * tile_size));
      size = mesh_row * tile_size;
    }
    ∷ [])))

unfoldable pub load_b : ℕ → ℕ → ℕ → Strides → ℕ → ℕ → List Copy
load_b batch n k s local_b b = for_each batch (λ i. for_each n (λ j. for_each k (λ l.
    record {
      dst = u32 (local_b + sub_offset s i j l);
      src = u32 (
          b
          + (i * k * tile_size * mesh_col * n
              + j * tile_size * mesh_col * k
              + l * tile_size * mesh_col));
      size = mesh_col * tile_size;
    }
    ∷ [])))

unfoldable pub load_input_data : ℕ → ℕ → ℕ → ℕ → ℕ → ℕ → ℕ → ℕ → Strides → Strides → List Copy
load_input_data batch m k n local_a local_b a b sa sb =
    load_a batch m k sa local_a a ++ load_b batch n k sb local_b b

-- `check_result`: one round of its inner loop, and the nest of five loops
unfoldable pub check_element : (ℕ → ℕ) → (ℕ → ℕ) → ℕ → ℕ → ℕ → ℕ
check_element output golden out_addr golden_idx err =
    if not (output out_addr == golden golden_idx) then add_u32 err 1 else err

unfoldable pub check_result : (ℕ → ℕ) → (ℕ → ℕ) → ℕ → ℕ → ℕ → Strides → ℕ
check_result output golden batch m n s =
    loop batch
      (λ b. loop m (λ r. loop n (λ c. loop mesh_row (λ i. loop mesh_col (λ j.
        check_element output golden (sub_offset s b r c / 4 + i * mesh_col + j) (
          i * mesh_col
          + j
          + b * m * mesh_row * mesh_col * n
          + r * mesh_row * mesh_col * n
          + c * mesh_row * mesh_col))))))
      0
