-- ===== src/Kernels/Statistics/Cells.antt =====
-- The cells of a matrix with `size_m` columns that lies below `2 ^ 32` (sw/apps/covariance).
use snax_rebase.Base.{ℕ, ◌+◌, ◌*◌, ◌^◌, ◌<◌, ◌≡◌, sym, ◌∙◌, arith}
use snax_rebase.Base.Grid.{row_unique}
use snax_rebase.Kernels.Statistics.{cell}

cell_room : (k i rows size_m : ℕ) → k < rows → i < size_m → k * size_m + i < rows * size_m
cell_room k i rows size_m hk hi = grind arith

pub cell_place :
    (rows size_m k i : ℕ)
    → rows * size_m < 2 ^ 32
    → k < rows
    → i < size_m
    → cell size_m k i ≡ k * size_m + i
cell_place rows size_m k i room hk hi = omega (arith, cell_room k i rows size_m hk hi)

pub cell_unique :
    (rows size_m k i k' i' : ℕ)
    → rows * size_m < 2 ^ 32
    → k < rows
    → i < size_m
    → k' < rows
    → i' < size_m
    → cell size_m k i ≡ cell size_m k' i'
    → (k ≡ k') × (i ≡ i')
cell_unique rows size_m k i k' i' room hk hi hk' hi' e =
    row_unique k i k' i' size_m hi hi'
      (sym (cell_place rows size_m k i room hk hi) ∙ e ∙ cell_place rows size_m k' i' room hk' hi')
