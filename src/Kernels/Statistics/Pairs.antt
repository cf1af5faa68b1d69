-- ===== src/Kernels/Statistics/Pairs.antt =====
-- The square matrix that the compute cores fill in pairs of mirrored elements (`kernel_covariance`,
-- `kernel_correlation`).
use snax_rebase.Base.{ℕ, ◌+◌, ◌*◌, ◌^◌, ◌<◌, ◌≤◌, ◌≡◌, ◌≢◌, ◌⊎◌, inl, inr, arith, dec_lt}
use snax_rebase.Base.Grid.{loop_off, loop_once}
use snax_rebase.Base.Loops.{loop}
use snax_rebase.Kernels.Statistics.{cell, set_pair, set_row}
use snax_rebase.Kernels.Statistics.Cells.{cell_unique}

module _ {A : Type 0} (size_m : ℕ) (room : size_m * size_m < 2 ^ 32) where
  -- Both elements of the pair get the value, and no other element changes.
  set_pair_own :
      (i j : ℕ) (v : A) (s : ℕ → A)
      → (set_pair size_m i j v s (cell size_m i j) ≡ v)
        × (set_pair size_m i j v s (cell size_m j i) ≡ v)
  unfolding set_pair
  set_pair_own i j v s = ground arith

  set_pair_other :
      (i j : ℕ) (v : A) (s : ℕ → A) (y : ℕ)
      → cell size_m i j ≢ y
      → cell size_m j i ≢ y
      → set_pair size_m i j v s y ≡ s y
  unfolding set_pair
  set_pair_other i j v s y p q = ground arith

  -- A row of pairs leaves the elements of other rows and columns.
  set_row_other :
      (g : ℕ → ℕ → A) (i p q : ℕ) (s : ℕ → A)
      → i < size_m
      → p < size_m
      → q < size_m
      → (i < p) ⊎ (i < q) ⊎ ((p < i) × (q < i))
      → set_row size_m g i s (cell size_m p q) ≡ s (cell size_m p q)
  unfolding set_row
  set_row_other g i p q s hi hp hq apart = loop_off _ (cell size_m p q) (i + 1) s (λ j d hj.
      set_pair_other i j (g i j) d (cell size_m p q)
        (λ e. ground (arith, cell_unique size_m size_m i j p q room hi (omega arith) hp hq e))
        (λ e. ground (arith, cell_unique size_m size_m j i p q room (omega arith) hi hp hq e)))

  -- Row `i` gives the element `(i, j)` and its mirror image their value.
  set_row_own :
      (g : ℕ → ℕ → A) (i j : ℕ) (s : ℕ → A)
      → i < size_m
      → j ≤ i
      → (set_row size_m g i s (cell size_m i j) ≡ g i j)
        × (set_row size_m g i s (cell size_m j i) ≡ g i j)
  unfolding set_row
  set_row_own g i j s hi hj = (
    loop_once _ (cell size_m i j) (i + 1) s j (g i j) (omega arith)
        (λ j' d hj' ne.
          set_pair_other i j' (g i j') d (cell size_m i j)
            (λ e.
              ne (cell_unique size_m size_m i j' i j room hi (omega arith) hi (omega arith) e).1)
            (λ e.
              ground (
                arith,
                cell_unique size_m size_m j' i i j room (omega arith) hi hi (omega arith) e,
              )))
        (set_pair_own i j (g i j) _).0,
    loop_once _ (cell size_m j i) (i + 1) s j (g i j) (omega arith)
        (λ j' d hj' ne.
          set_pair_other i j' (g i j') d (cell size_m j i)
            (λ e.
              ground (
                arith,
                cell_unique size_m size_m i j' j i room hi (omega arith) (omega arith) hi e,
              ))
            (λ e.
              ne (cell_unique size_m size_m j' i j i room (omega arith) hi (omega arith) hi e).0))
        (set_pair_own i j (g i j) _).1,
  )

  -- After the first `count` rows each of their elements has its value, on both sides of the diagonal.
  pub set_rows :
      (g : ℕ → ℕ → A) (count i j : ℕ) (s : ℕ → A)
      → count ≤ size_m
      → i < count
      → j ≤ i
      → (loop count (set_row size_m g) s (cell size_m i j) ≡ g i j)
        × (loop count (set_row size_m g) s (cell size_m j i) ≡ g i j)
  set_rows g count i j s all hi hj = (
    loop_once _ (cell size_m i j) count s i (g i j) hi
        (λ i' d hi' ne.
          set_row_other g i' i j d (omega arith) (omega arith) (omega arith) (apart i' ne))
        (set_row_own g i j _ (omega arith) hj).0,
    loop_once _ (cell size_m j i) count s i (g i j) hi
        (λ i' d hi' ne.
          set_row_other g i' j i d (omega arith) (omega arith) (omega arith)
            (ground (arith, apart i' ne)))
        (set_row_own g i j _ (omega arith) hj).1,
  )
    where
      apart : (i' : ℕ) → i' ≢ i → (i' < i) ⊎ (i' < j) ⊎ ((i < i') × (j < i'))
      apart i' ne = elim (dec_lt i' i) [
        | yes below ↦ inl below
        | no above ↦ inr (inr (omega arith, omega arith))
      ]
