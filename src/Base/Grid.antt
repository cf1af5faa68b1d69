-- ===== src/Base/Grid.antt =====
-- What a loop leaves in one entry of an array, when only one of its rounds changes that entry; and the
-- positions of a grid of rows.
use Prim.Native.Nat.{ℕ, zero, suc, ◌+◌, ◌*◌, ◌/◌, ◌<◌}
use mathlib.Core.Path.{◌≡◌, refl, ap, ◌∙◌, subst, sym}
use mathlib.Core.Logic.{◌≢◌}
use native.Mathlib.Decide.{ℕ_discrete}
use native.Mathlib.Nat.{mul-add-div_right, div-eq_of_lt}
use native.Mathlib.Omega.{arith}
use snax_rebase.Base.Loops.{loop}
use snax_rebase.Base.Memory.{update, update_self, update_ne}

module _ {ℓ} {A : Type ℓ} (f : ℕ → (ℕ → A) → ℕ → A) (y : ℕ) where
  -- No round changes the entry.
  pub loop_off :
      (n : ℕ) (c : ℕ → A) → ((i : ℕ) (c : ℕ → A) → i < n → f i c y ≡ c y) → loop n f c y ≡ c y
  unfolding loop
  loop_off zero c h = refl
  loop_off (suc n) c h =
      h n (loop n f c) (omega arith) ∙ loop_off n c (λ i d lt. h i d (omega arith))

  -- Round `k` changes the entry by `g`, and no other round changes it.
  pub loop_at :
      (n : ℕ) (c : ℕ → A) (k : ℕ) (g : A → A)
      → k < n
      → ((i : ℕ) (c : ℕ → A) → i < n → i ≢ k → f i c y ≡ c y)
      → ((c : ℕ → A) → f k c y ≡ g (c y))
      → loop n f c y ≡ g (c y)
  unfolding loop
  loop_at zero c k g lt off here = absurd (omega arith)
  loop_at (suc n) c k g lt off here = elim (ℕ_discrete n k) [
    | yes same ↦
        subst (λ i. f i (loop n f c) y ≡ g (loop n f c y)) (sym same) (here (loop n f c))
        ∙ ap g (loop_off n c (λ i d below. off i d (omega arith) (omega arith)))
    | no other ↦
        off n (loop n f c) (omega arith) other
        ∙ loop_at n c k g (omega arith) (λ i d below. off i d (omega arith)) here
  ]

-- A position in a grid of rows of length `n` determines the row and the column.
pub row_unique : (i j i' j' n : ℕ) → j < n → j' < n → i * n + j ≡ i' * n + j' → (i ≡ i') × (j ≡ j')
row_unique i j i' j' n p q e =
    let r : i ≡ i' = omega (
      arith,
      mul-add-div_right {m = n} (omega arith) i j,
      mul-add-div_right {m = n} (omega arith) i' j',
      div-eq_of_lt p,
      div-eq_of_lt q,
      ap (λ (t : ℕ). t / n) e,
    ) in
    (r, omega (arith, ap (λ (t : ℕ). t * n) r))

module _ {ℓ} {A : Type ℓ} (f : ℕ → (ℕ → A) → ℕ → A) (y : ℕ) where
  -- Only round `k` changes the entry, from what the rounds before have left.
  pub loop_once :
      (n : ℕ) (c : ℕ → A) (k : ℕ) (v : A)
      → k < n
      → ((i : ℕ) (d : ℕ → A) → i < n → i ≢ k → f i d y ≡ d y)
      → f k (loop k f c) y ≡ v
      → loop n f c y ≡ v
  unfolding loop
  loop_once zero c k v lt off here = absurd (omega arith)
  loop_once (suc n) c k v lt off here = elim (ℕ_discrete n k) [
    | yes same ↦ subst (λ i. f i (loop i f c) y ≡ v) (sym same) here
    | no other ↦
        off n (loop n f c) (omega arith) other
        ∙ loop_once n c k v (omega arith) (λ i d below. off i d (omega arith)) here
  ]

-- The same for what `w` shows of any state.
module _ {ℓ κ} {S : Type ℓ} {A : Type κ} (f : ℕ → S → S) (w : S → A) where
  pub watch_off :
      (n : ℕ) (s : S) → ((i : ℕ) (s : S) → i < n → w (f i s) ≡ w s) → w (loop n f s) ≡ w s
  unfolding loop
  watch_off zero s h = refl
  watch_off (suc n) s h =
      h n (loop n f s) (omega arith) ∙ watch_off n s (λ i d lt. h i d (omega arith))

  pub watch_at :
      (n : ℕ) (s : S) (k : ℕ) (g : A → A)
      → k < n
      → ((i : ℕ) (s : S) → i < n → i ≢ k → w (f i s) ≡ w s)
      → ((s : S) → w (f k s) ≡ g (w s))
      → w (loop n f s) ≡ g (w s)
  unfolding loop
  watch_at zero s k g lt off here = absurd (omega arith)
  watch_at (suc n) s k g lt off here = elim (ℕ_discrete n k) [
    | yes same ↦
        subst (λ i. w (f i (loop n f s)) ≡ g (w (loop n f s))) (sym same) (here (loop n f s))
        ∙ ap g (watch_off n s (λ i d below. off i d (omega arith) (omega arith)))
    | no other ↦
        off n (loop n f s) (omega arith) other
        ∙ watch_at n s k g (omega arith) (λ i d below. off i d (omega arith)) here
  ]

-- Two loops that write the value `v r j` at the place `p r j`.
module _ {ℓ} {A : Type ℓ} (p : ℕ → ℕ → ℕ) (v : ℕ → ℕ → A) where
  abbrev pub write_grid : ℕ → ℕ → (ℕ → A) → ℕ → A
  write_grid rows cols = loop rows (λ r. loop cols (λ j d. update d (p r j) (v r j)))

  pub write_grid_off :
      (rows cols y : ℕ) (d : ℕ → A)
      → ((r j : ℕ) → r < rows → j < cols → p r j ≢ y)
      → write_grid rows cols d y ≡ d y
  write_grid_off rows cols y d h =
      loop_off _ y rows d
        (λ r c hr. loop_off _ y cols c (λ j e hj. update_ne e (p r j) y (v r j) (h r j hr hj)))

  pub write_grid_at :
      (rows cols r j : ℕ) (d : ℕ → A)
      → r < rows
      → j < cols
      → ((r' j' : ℕ) → r' < rows → j' < cols → p r' j' ≡ p r j → (r' ≡ r) × (j' ≡ j))
      → write_grid rows cols d (p r j) ≡ v r j
  write_grid_at rows cols r j d hr hj one =
      loop_at _ (p r j) rows d r (λ _. v r j) hr
        (λ r' c hr' ne. loop_off _ (p r j) cols c (λ j' e hj'.
          update_ne e (p r' j') (p r j) (v r' j') (λ same. ne (one r' j' hr' hj' same).0)))
        (λ c.
          loop_at _ (p r j) cols c j (λ _. v r j) hj
            (λ j' e hj' ne.
              update_ne e (p r j') (p r j) (v r j') (λ same. ne (one r j' hr hj' same).1))
            (λ e. update_self e (p r j) (v r j)))

-- Two loops that replace the entry at `p r j` by a value that depends on it.
module _ {ℓ} {A : Type ℓ} (p : ℕ → ℕ → ℕ) (g : ℕ → ℕ → A → A) where
  abbrev pub revise_grid : ℕ → ℕ → (ℕ → A) → ℕ → A
  revise_grid rows cols = loop rows (λ r. loop cols (λ j d. update d (p r j) (g r j (d (p r j)))))

  pub revise_grid_at :
      (rows cols r j : ℕ) (d : ℕ → A)
      → r < rows
      → j < cols
      → ((r' j' : ℕ) → r' < rows → j' < cols → p r' j' ≡ p r j → (r' ≡ r) × (j' ≡ j))
      → revise_grid rows cols d (p r j) ≡ g r j (d (p r j))
  revise_grid_at rows cols r j d hr hj one =
      loop_at _ (p r j) rows d r (g r j) hr
        (λ r' c hr' ne.
          loop_off _ (p r j) cols c
            (λ j' e hj'. update_ne e (p r' j') (p r j) _ (λ same. ne (one r' j' hr' hj' same).0)))
        (λ c.
          loop_at _ (p r j) cols c j (g r j) hj
            (λ j' e hj' ne. update_ne e (p r j') (p r j) _ (λ same. ne (one r j' hr hj' same).1))
            (λ e. update_self e (p r j) _))
