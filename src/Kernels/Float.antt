-- ===== src/Kernels/Float.antt =====
-- The floating-point operations that the kernels use, as an interface without laws: a theorem about a
-- kernel holds for every rounding.
use snax_rebase.Base.{ℕ, Bool}

pub record Float (A : Type 0) : Type 0 where
  pub zero : A
  pub add : A → A → A
  pub sub : A → A → A
  pub mul : A → A → A
  pub div : A → A → A
  pub sqrt : A → A
  pub exp : A → A
  pub neg_infinity : A
  pub of_nat : ℕ → A  -- the conversion of an unsigned number
  pub is_greater : A → A → Bool
  pub is_nonzero : A → Bool
