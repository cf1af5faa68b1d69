-- ===== src/Kernels/Statistics/Center.antt =====
-- What the compute cores leave of the samples before the barrier of `kernel_covariance` and of
-- `kernel_correlation`.
use snax_rebase.Base.{ℕ, ◌*◌, ◌^◌, ◌<◌, ◌≤◌, ◌≡◌, ◌≢◌, ap, ap₂, ◌∙◌, arith}
use snax_rebase.Base.Grid.{loop_off, loop_at, loop_once}
use snax_rebase.Base.Loops.{loop, loop-ext}
use snax_rebase.Base.Memory.{update_self, update_ne}
use snax_rebase.Kernels.Float.{Float}
use snax_rebase.Kernels.Statistics.{cell, column_mean, subtract_mean, center}
use snax_rebase.Kernels.Statistics.Cells.{cell_unique}

module _ {A : Type 0} (f : Float A) (size_n size_m : ℕ) (room : size_n * size_m < 2 ^ 32) where
  -- The mean of a column depends on that column alone.
  pub column_mean-ext :
      (c d : ℕ → A) (i : ℕ)
      → ((k : ℕ) → k < size_n → c (cell size_m k i) ≡ d (cell size_m k i))
      → column_mean f size_n size_m c i ≡ column_mean f size_n size_m d i
  unfolding column_mean
  column_mean-ext c d i h =
      ap (λ x. f.div x (f.of_nat size_n))
        (loop-ext size_n _ _ f.zero (λ k s hk. ap (f.add s) (h k hk)))

  subtract_own :
      (mean : A) (i k : ℕ) (c : ℕ → A)
      → i < size_m
      → k < size_n
      → subtract_mean f size_n size_m mean i c (cell size_m k i) ≡ f.sub (c (cell size_m k i)) mean
  unfolding subtract_mean
  subtract_own mean i k c hi hk =
      loop_at _ (cell size_m k i) size_n c k (λ v. f.sub v mean) hk
        (λ k' d hk' ne.
          update_ne d (cell size_m k' i) (cell size_m k i) _
            (λ e. ne (cell_unique size_n size_m k' i k i room hk' hi hk hi e).0))
        (λ d. update_self d (cell size_m k i) _)

  -- Other columns stay.
  pub subtract_other :
      (mean : A) (i i' k : ℕ) (c : ℕ → A)
      → i < size_m
      → i' < size_m
      → k < size_n
      → i' ≢ i
      → subtract_mean f size_n size_m mean i' c (cell size_m k i) ≡ c (cell size_m k i)
  unfolding subtract_mean
  subtract_other mean i i' k c hi hi' hk ne = loop_off _ (cell size_m k i) size_n c (λ k' d hk'.
      update_ne d (cell size_m k' i') (cell size_m k i) _
        (λ e. ne (cell_unique size_n size_m k' i' k i room hk' hi' hk hi e).1))

  -- The rounds of the columns before leave a column as it was.
  pub center_before :
      (i k : ℕ) (c : ℕ → A)
      → i < size_m
      → k < size_n
      → loop i (center f size_n size_m) c (cell size_m k i) ≡ c (cell size_m k i)
  unfolding center
  center_before i k c hi hk =
      loop_off _ (cell size_m k i) i c
        (λ i' d lt. subtract_other _ i i' k d hi (omega arith) hk (omega arith))

  -- The first `count` columns are centred.
  pub center_columns :
      (count i k : ℕ) (c : ℕ → A)
      → count ≤ size_m
      → i < count
      → k < size_n
      → loop count (center f size_n size_m) c (cell size_m k i)
        ≡ f.sub (c (cell size_m k i)) (column_mean f size_n size_m c i)
  unfolding center
  center_columns count i k c all hi hk =
      loop_once _ (cell size_m k i) count c i _ hi
        (λ i' d hi' ne. subtract_other _ i i' k d (omega arith) (omega arith) hk ne)
        (subtract_own _ i k _ (omega arith) hk
          ∙ ap₂ f.sub (center_before i k c (omega arith) hk)
              (column_mean-ext _ c i (λ k' hk'. center_before i k' c (omega arith) hk')))
