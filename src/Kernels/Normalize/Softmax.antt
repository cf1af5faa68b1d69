-- ===== src/Kernels/Normalize/Softmax.antt =====
-- What `softmax_fp32` computes (sw/dnn/softmax/src/softmax.h).
use snax_rebase.Base.{ℕ, zero}
use snax_rebase.Base.Loops.{loop}
use snax_rebase.Kernels.Float.{Float}
use snax_rebase.Kernels.Normalize.{row_max}

module _ {A : Type 0} (f : Float A) (width : ℕ) (input : ℕ → A) where
  -- The exponential of an element less the maximum of the row, and the sum of all of the row
  pub shifted : (ℕ → ℕ) → ℕ → A
  shifted p i = f.exp (f.sub (input (p i)) (row_max f width input p))

  pub shifted_sum : (ℕ → ℕ) → A
  shifted_sum p = loop width (λ i s. f.add s (shifted p i)) f.zero

  -- The value of element `i` of a row
  pub share : (ℕ → ℕ) → ℕ → A
  share p i = f.div (shifted p i) (shifted_sum p)
