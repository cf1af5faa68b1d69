-- ===== src/Base/Family.antt =====
-- Families indexed by thread: how many of the first `n` members count, and what changes when one
-- member is replaced.
use Prim.Native.Nat.{ℕ, zero, suc, ◌+◌, ◌*◌, ◌≤◌, ◌<◌}
use mathlib.Core.Path.{◌≡◌, refl}
use mathlib.Core.Logic.{◌⊎◌, inl, inr}
use native.Mathlib.Decide.{ℕ_discrete}
use native.Mathlib.Omega.{arith}
use snax_rebase.Base.Memory.{update}

module _ {ℓ} {A : Type ℓ} (w : A → ℕ) where
  -- `w` summed over the members below `n`
  pub count : ℕ → (ℕ → A) → ℕ
  count zero f = 0
  count (suc n) f = w (f n) + count n f

  count-update_above :
      (n : ℕ) (f : ℕ → A) (i : ℕ) (a : A) → n ≤ i → count n (update f i a) ≡ count n f
  unfolding count
  count-update_above zero f i a h = refl
  count-update_above (suc n) f i a h = ground (arith, count-update_above n f i a)

  pub count-update :
      (n : ℕ) (f : ℕ → A) (i : ℕ) (a : A)
      → i < n
      → count n (update f i a) + w (f i) ≡ count n f + w a
  unfolding count
  count-update zero f i a h = absurd (omega arith)
  count-update (suc n) f i a h = elim (ℕ_discrete i n) [
    | yes last ↦ ground (arith, count-update_above n f i a)
    | no other ↦ ground (arith, count-update n f i a)
  ]

  pub count_zero : (n : ℕ) (f : ℕ → A) → ((j : ℕ) → j < n → w (f j) ≡ 0) → count n f ≡ 0
  unfolding count
  count_zero zero f h = refl
  count_zero (suc n) f h =
      omega (arith, h n (omega arith), count_zero n f (λ j lt. h j (omega arith)))

  pub count_all : (n : ℕ) (f : ℕ → A) → ((j : ℕ) → j < n → w (f j) ≡ 1) → count n f ≡ n
  unfolding count
  count_all zero f h = refl
  count_all (suc n) f h =
      omega (arith, h n (omega arith), count_all n f (λ j lt. h j (omega arith)))

  pub count_bound : (n : ℕ) (f : ℕ → A) (b : ℕ) → ((j : ℕ) → w (f j) ≤ b) → count n f ≤ n * b
  unfolding count
  count_bound zero f b h = omega arith
  count_bound (suc n) f b h =
      let e : suc n * b ≡ n * b + b = omega arith in omega (arith, e, h n, count_bound n f b h)

  pub count_member : (n : ℕ) (f : ℕ → A) (j : ℕ) → j < n → w (f j) ≤ count n f
  unfolding count
  count_member zero f j h = absurd (omega arith)
  count_member (suc n) f j h = elim (ℕ_discrete j n) [
    | yes last ↦ ground arith
    | no other ↦ omega (arith, count_member n f j (omega arith))
  ]

  module _ (unit : (a : A) → w a ≤ 1) where
    pub count-le : (n : ℕ) (f : ℕ → A) → count n f ≤ n
    unfolding count
    count-le zero f = omega arith
    count-le (suc n) f = omega (arith, unit (f n), count-le n f)

    -- If all of them count, each one does.
    pub count_full : (n : ℕ) (f : ℕ → A) (j : ℕ) → j < n → count n f + 1 ≤ n + w (f j)
    unfolding count
    count_full zero f j h = absurd (omega arith)
    count_full (suc n) f j h = elim (ℕ_discrete j n) [
      | yes last ↦ ground (arith, count-le n f)
      | no other ↦ omega (arith, unit (f n), count_full n f j (omega arith))
    ]

    -- All of them count, or one does not.
    pub count_split : (n : ℕ) (f : ℕ → A) → (count n f ≡ n) ⊎ ((i : ℕ) × (i < n) × (w (f i) ≡ 0))
    unfolding count
    count_split zero f = inl refl
    count_split (suc n) f = elim (ℕ_discrete (w (f n)) 0) [
      | yes none_here ↦ inr (n, omega arith, none_here)
      | no some_here ↦ elim (count_split n f) [
        | inl all ↦ inl (omega (arith, unit (f n)))
        | inr (i, h, e) ↦ inr (i, omega arith, e)
      ]
    ]
