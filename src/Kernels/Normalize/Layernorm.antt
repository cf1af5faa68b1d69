-- ===== src/Kernels/Normalize/Layernorm.antt =====
-- What `layernorm_fp32_naive` computes (sw/dnn/layernorm/src/layernorm_fp32.h).
use snax_rebase.Base.{ℕ, ◌+◌, ◌*◌, ◌/◌, ◌^◌, ◌<◌, ◌≡◌, ap, ap₂, ◌∙◌, refl, zero, suc}
use snax_rebase.Base.Loops.{loop, loop-ext}
use snax_rebase.Kernels.Float.{Float}
use snax_rebase.Kernels.Normalize.{mean, spread, layernorm_row, layernorm_fp32_naive}
use snax_rebase.Kernels.Rows.{IsRow}
use snax_rebase.Kernels.Rows.Cluster.{cluster_row}
use snax_rebase.Kernels.Rows.Writes.{rewrite_own, rewrite_off}
use native.Mathlib.Nat.{div-mul-le_self}

-- The statistics of `n` numbers, apart from the kernel: their sum, first to last, their average, and
-- the distance of one of them from the average over the square root of the average of the squared
-- distances plus `eps`
module _ {A : Type 0} (f : Float A) where
  unfoldable pub sum : ℕ → (ℕ → A) → A
  sum zero x = f.zero
  sum (suc n) x = f.add (sum n x) (x n)

  unfoldable pub average : ℕ → (ℕ → A) → A
  average n x = f.div (sum n x) (f.of_nat n)

  unfoldable pub standardized : ℕ → ℕ → (ℕ → A) → ℕ → A
  standardized n eps x i =
      let squared = λ (j : ℕ). f.mul (f.sub (x j) (average n x)) (f.sub (x j) (average n x)) in
      f.div (f.sub (x i) (average n x)) (f.sqrt (f.add (average n squared) (f.of_nat eps)))

  loop-sum : (n : ℕ) (x : ℕ → A) → loop n (λ i s. f.add s (x i)) f.zero ≡ sum n x
  unfolding loop sum
  loop-sum zero x = refl
  loop-sum (suc n) x = ap (λ s. f.add s (x n)) (loop-sum n x)

module _ {A : Type 0} (f : Float A) (width : ℕ) (input : ℕ → A) where
  mean-ext :
      (p q : ℕ → ℕ)
      → ((j : ℕ) → j < width → p j ≡ q j)
      → mean f width input p ≡ mean f width input q
  unfolding mean
  mean-ext p q h =
      ap (λ x. f.div x (f.of_nat width))
        (loop-ext width _ _ f.zero (λ i m hi. ap (λ x. f.add m (input x)) (h i hi)))

  spread-ext :
      (eps : ℕ) (p q : ℕ → ℕ)
      → ((j : ℕ) → j < width → p j ≡ q j)
      → spread f width input eps p ≡ spread f width input eps q
  unfolding spread
  spread-ext eps p q h =
      ap (λ x. f.sqrt (f.add (f.div x (f.of_nat width)) (f.of_nat eps)))
        (loop-ext width _ _ f.zero (λ i v hi.
          ap₂ (λ x m. f.add v (f.mul (f.sub (input x) m) (f.sub (input x) m))) (h i hi)
            (mean-ext p q h)))

  -- The value of element `i` of a row
  normal : ℕ → (ℕ → ℕ) → ℕ → A
  normal eps p i = f.div (f.sub (input (p i)) (mean f width input p)) (spread f width input eps p)

  layernorm_row-IsRow : (eps : ℕ) → IsRow width (layernorm_row f width input eps) (normal eps)
  unfolding layernorm_row normal
  layernorm_row-IsRow eps = record {
    own = λ p out i apart hi. rewrite_own width p (λ i x. normal eps p i) out i apart hi;
    off = λ p out y none_here. rewrite_off width p (λ i x. normal eps p i) out y none_here;
    same = λ p q i h hi.
        ap₂ f.div (ap₂ (λ x m. f.sub (input x) m) (h i hi) (mean-ext p q h)) (spread-ext eps p q h);
  }

  mean_lem : (p : ℕ → ℕ) → mean f width input p ≡ average f width (λ j. input (p j))
  unfolding mean average
  mean_lem p = ap (λ s. f.div s (f.of_nat width)) (loop-sum f width (λ j. input (p j)))

  normal_lem :
      (eps : ℕ) (p : ℕ → ℕ) (i : ℕ) → normal eps p i ≡ standardized f width eps (λ j. input (p j)) i
  unfolding normal spread standardized average
  normal_lem eps p i =
      ap
        (λ s.
          f.div (f.sub (input (p i)) (mean f width input p))
            (f.sqrt (f.add (f.div s (f.of_nat width)) (f.of_nat eps))))
        (loop-sum f width (λ j.
          f.mul (f.sub (input (p j)) (mean f width input p))
            (f.sub (input (p j)) (mean f width input p))))
      ∙ ap
          (λ m. f.div (f.sub (input (p i)) m) (
            f.sqrt (
              f.add
                (f.div (sum f width (λ j. f.mul (f.sub (input (p j)) m) (f.sub (input (p j)) m)))
                  (f.of_nat width))
                (f.of_nat eps))))
          (mean_lem p)

  -- On all compute cores of a cluster `layernorm_fp32_naive` leaves in element `i` of row `r` of sample
  -- `b`, where `r` is among the first rows of the sample, as many as there are cores, times the rows of
  -- each, the element of the input less the mean of its row, over the square root of the row's variance
  -- plus `eps`. The tensor has to fit the address space.
  pub layernorm_elements :
      (cores batch_size seq_len eps b r i : ℕ) (output : ℕ → A)
      → batch_size * seq_len * width < 2 ^ 32
      → b < batch_size
      → r < seq_len / cores * cores
      → i < width
      → layernorm_fp32_naive f width input cores batch_size seq_len eps output
          ((b * seq_len + r) * width + i)
        ≡ standardized f width eps (λ j. input ((b * seq_len + r) * width + j)) i
  unfolding layernorm_fp32_naive
  layernorm_elements cores batch_size seq_len eps b r i output room hb hr hi =
      cluster_row cores batch_size seq_len (seq_len / cores) width room
        (div-mul-le_self seq_len cores) _ _ (layernorm_row-IsRow eps) b r i output hb hr hi
      ∙ normal_lem eps (λ j. (b * seq_len + r) * width + j) i
