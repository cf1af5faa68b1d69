-- ===== src/Kernels/Rows/Writes.antt =====
-- A loop that rewrites the elements of one row (sw/dnn/softmax, sw/dnn/layernorm).
use snax_rebase.Base.{ℕ, ◌<◌, ◌≡◌, ◌≢◌}
use snax_rebase.Base.Grid.{loop_off, loop_at}
use snax_rebase.Base.Loops.{loop}
use snax_rebase.Base.Memory.{update, update_self, update_ne}

-- No subscript of the row occurs twice.
abbrev pub Apart : ℕ → (ℕ → ℕ) → Type 0
Apart width p = (j k : ℕ) → j < width → k < width → p j ≡ p k → j ≡ k

module _ {A : Type 0} (width : ℕ) (p : ℕ → ℕ) (g : ℕ → A → A) where
  abbrev pub rewrite : ℕ → (ℕ → A) → ℕ → A
  rewrite i out = update out (p i) (g i (out (p i)))

  pub rewrite_own :
      (out : ℕ → A) (i : ℕ)
      → Apart width p
      → i < width
      → loop width rewrite out (p i) ≡ g i (out (p i))
  rewrite_own out i apart hi =
      loop_at rewrite (p i) width out i (g i) hi
        (λ j d hj ne. update_ne d (p j) (p i) (g j (d (p j))) (λ e. ne (apart j i hj hi e)))
        (λ d. update_self d (p i) (g i (d (p i))))

  pub rewrite_off :
      (out : ℕ → A) (y : ℕ) → ((i : ℕ) → i < width → p i ≢ y) → loop width rewrite out y ≡ out y
  rewrite_off out y none_here =
      loop_off rewrite y width out (λ j d hj. update_ne d (p j) y (g j (d (p j))) (none_here j hj))
