-- ===== src/Kernels/Vectors/Entries.antt =====
-- What `axpy` and `kernel_atax` leave in each element (sw/blas/axpy, sw/apps/atax).
use snax_rebase.Base.{ℕ, ◌*◌, ◌/◌, ◌^◌, ◌<◌, ◌≡◌, refl, ap, fun_ext, ◌∙◌, ltb, if◌then◌else◌}
use snax_rebase.Base.Loops.{loop_entries}
use snax_rebase.Base.Memory.{update}
use snax_rebase.Kernels.Float.{Float}
use snax_rebase.Kernels.Shares.{cluster_share, cluster_share_lem}
use snax_rebase.Kernels.Vectors.{axpy_round, axpy, row_sum, column_sum, atax_tmp, kernel_atax}

-- Rounds of which each writes the element of its number
share_entries :
    {A : Type 0} (cores n : ℕ) (g : ℕ → A) (c : ℕ → A) (y : ℕ)
    → n < 2 ^ 32
    → cluster_share cores n (λ i t. update t i (g i)) c y
      ≡ (if ltb y (cores * (n / cores)) then g y else c y)
share_entries cores n g c y room =
    ap (λ t. t y) (cluster_share_lem cores n (λ i t. update t i (g i)) c room)
    ∙ loop_entries (cores * (n / cores)) (λ i t. update t i (g i)) (λ i v. g i) c y
        (λ x d y' lt. refl)

module _ {A : Type 0} (f : Float A) where
  -- On all compute cores of a cluster `axpy` computes the sum for the first elements, as many as there
  -- are cores, times the elements of each, and leaves the other elements as they are. The number of
  -- elements is below `2 ^ 32`.
  pub axpy_elements :
      (cores n : ℕ) (a : A) (x y z : ℕ → A) (i : ℕ)
      → n < 2 ^ 32
      → axpy f cores n a x y z i
        ≡ (if ltb i (cores * (n / cores)) then f.add (f.mul a (x i)) (y i) else z i)
  unfolding axpy axpy_round
  axpy_elements cores n a x y z i room =
      share_entries cores n (λ i. f.add (f.mul a (x i)) (y i)) z i room

  -- On all compute cores of a cluster `kernel_atax` leaves in the first elements of the result, as
  -- many as there are cores, times the columns of each, the sum over the rows of the element in that
  -- column times the row's product with `x`; for the rows past the cores' shares it takes what `tmp`
  -- held before, and it leaves the other elements of the result as they are. The numbers of rows and
  -- columns are below `2 ^ 32`.
  pub atax_elements :
      (cores size_m size_n : ℕ) (a x y tmp : ℕ → A) (j : ℕ)
      → size_m < 2 ^ 32
      → size_n < 2 ^ 32
      → kernel_atax f cores size_m size_n a x y tmp j ≡ (
          if ltb j (cores * (size_n / cores))
          then column_sum f size_m size_n a
              (λ i. if ltb i (cores * (size_m / cores)) then row_sum f size_n a x i else tmp i)
              j
          else y j)
  unfolding kernel_atax atax_tmp
  atax_elements cores size_m size_n a x y tmp j rows columns =
      share_entries cores size_n
        (column_sum f size_m size_n a (atax_tmp f cores size_m size_n a x tmp)) y j columns
      ∙ ap (λ t. if ltb j (cores * (size_n / cores)) then column_sum f size_m size_n a t j else y j)
          (fun_ext (λ i. share_entries cores size_m (row_sum f size_n a x) tmp i rows))
