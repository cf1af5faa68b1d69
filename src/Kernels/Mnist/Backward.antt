-- ===== src/Kernels/Mnist/Backward.antt =====
-- The gradients of one image and the update of the parameters (sw/apps/mnist/nnlinear_baseline.h).
use snax_rebase.Base.{ℕ, zero, suc, ◌+◌, ◌*◌, ◌<◌, ◌≡◌, refl, ap, ◌∙◌, ◌==◌, if◌then◌else◌}
use snax_rebase.Base.Grid.{loop_at, loop_off, watch_at, row_unique, revise_grid, revise_grid_at}
use snax_rebase.Base.Loops.{loop}
use snax_rebase.Base.Memory.{update, update_self, update_ne}
use snax_rebase.Kernels.Float.{Float}
use snax_rebase.Kernels.Mnist.{
  Gradients, Parameters, feed_forward, b_grad, add_gradients, gradient_update, training_step,
}
use snax_rebase.Kernels.Mnist.Forward.{probability, score, feed_forward_entry}

module _ {A : Type 0} (f : Float A) (log : A → A) (classes in_ch batch_size : ℕ) where
  abbrev entry : ℕ → ℕ → ℕ
  entry i j = i * in_ch + j

  entry_unique :
      (i j i' j' : ℕ) → j < in_ch → j' < in_ch → entry i' j' ≡ entry i j → (i' ≡ i) × (j' ≡ j)
  entry_unique i j i' j' h h' e = row_unique i' j' i j in_ch h' h e

  module _ (image activations : ℕ → A) (label : ℕ) where
    abbrev add_w : ℕ → ℕ → A → A
    add_w i j v =
        f.add v (f.mul (b_grad f log classes in_ch batch_size activations label i) (image j))

    abbrev add_b : ℕ → A → A
    add_b i v = f.add v (b_grad f log classes in_ch batch_size activations label i)

    -- The two gradients are separate loops.
    gradients_apart :
        (n : ℕ) (g : Gradients A)
        → let both =
            loop n
              (λ i g. record {
                weights =
                    loop in_ch (λ j w. update w (entry i j) (add_w i j (w (entry i j)))) g.weights;
                biases = update g.biases i (add_b i (g.biases i));
              })
              g in
          (both.weights ≡ revise_grid entry add_w n in_ch g.weights)
          × (both.biases ≡ loop n (λ i b. update b i (add_b i (b i))) g.biases)
    unfolding loop
    gradients_apart zero g = (refl, refl)
    gradients_apart (suc n) g =
        let (w, b) = gradients_apart n g in
        (
          ap (loop in_ch (λ j w. update w (entry n j) (add_w n j (w (entry n j))))) w,
          ap (λ b. update b n (add_b n (b n))) b,
        )

    gradients_at :
        (i j : ℕ) (g : Gradients A)
        → i < classes
        → j < in_ch
        → let after = add_gradients f log classes in_ch batch_size image activations label g in
          (after.weights (entry i j) ≡ add_w i j (g.weights (entry i j)))
          × (after.biases i ≡ add_b i (g.biases i))
    unfolding add_gradients
    gradients_at i j g hi hj =
        let (w, b) = gradients_apart classes g in
        (
          ap (λ c. c (entry i j)) w
              ∙ revise_grid_at entry add_w classes in_ch i j g.weights hi hj
                  (λ i' j' _ hj' e. entry_unique i j i' j' hj hj' e),
          ap (λ c. c i) b
              ∙ loop_at (λ i b. update b i (add_b i (b i))) i classes g.biases i (add_b i) hi
                  (λ k d hk ne. update_ne d k i _ ne) (λ d. update_self d i _),
        )

  -- `GradientUpdate_baseline` adds to the gradient of each bias the share of its class, less 1 for the
  -- label, and to the gradient of each weight this difference times the pixel; its loss is the negative
  -- logarithm of the label's share. The shares are those of the linear layer's scores.
  pub gradient_update_entries :
      (image biases weights activations : ℕ → A) (label i j : ℕ) (g : Gradients A)
      → label < classes
      → i < classes
      → j < in_ch
      → let after =
          gradient_update f log classes in_ch batch_size image biases weights label activations g in
        let share =
          probability f log classes in_ch batch_size
            (score f log classes in_ch batch_size image biases weights)
            classes in
        let difference = if i == label then f.sub (share i) (f.of_nat 1) else share i in
        (after.gradients.biases i ≡ f.add (g.biases i) difference)
        × (after.gradients.weights (i * in_ch + j)
            ≡ f.add (g.weights (i * in_ch + j)) (f.mul difference (image j)))
        × (after.loss ≡ f.sub f.zero (log (share label)))
  unfolding gradient_update b_grad
  gradient_update_entries image biases weights activations label i j g hl hi hj =
      let fed = feed_forward f log classes in_ch batch_size image biases weights activations in
      let share =
        feed_forward_entry f log classes in_ch batch_size image biases weights activations in
      let added = gradients_at image fed label i j g hi hj in
      let same = ap (λ v. if i == label then f.sub v (f.of_nat 1) else v) (share i hi) in
      (
        added.1 ∙ ap (f.add (g.biases i)) same,
        added.0 ∙ ap (λ v. f.add (g.weights (i * in_ch + j)) (f.mul v (image j))) same,
        ap (λ v. f.sub f.zero (log v)) (share label hl),
      )

  -- `TrainingStep_baseline` takes from each bias and each weight its gradient times the learning rate, by
  -- the size of the batch.
  pub training_step_entries :
      (learning_rate : A) (g : Gradients A) (p : Parameters A) (i j : ℕ)
      → i < classes
      → j < in_ch
      → let after = training_step f log classes in_ch batch_size learning_rate g p in
        let share = λ (v : A). f.div (f.mul learning_rate v) (f.of_nat batch_size) in
        (after.biases i ≡ f.sub (p.biases i) (share (g.biases i)))
        × (after.weights (i * in_ch + j)
            ≡ f.sub (p.weights (i * in_ch + j)) (share (g.weights (i * in_ch + j))))
  unfolding training_step
  training_step_entries learning_rate g p i j hi hj =
      let less = λ (v d : A). f.sub v (f.div (f.mul learning_rate d) (f.of_nat batch_size)) in
      (
        watch_at _ (λ p. p.biases i) classes p i (λ v. less v (g.biases i)) hi
            (λ k q hk ne. update_ne q.biases k i _ ne) (λ q. update_self q.biases i _),
        watch_at _ (λ p. p.weights (entry i j)) classes p i (λ v. less v (g.weights (entry i j))) hi
            (λ k q hk ne. loop_off _ (entry i j) in_ch q.weights (λ o d ho.
              update_ne d (entry k o) (entry i j) _ (λ e. ne (entry_unique i j k o hj ho e).0)))
            (λ q.
              loop_at _ (entry i j) in_ch q.weights j (λ v. less v (g.weights (entry i j))) hj
                (λ o d ho ne.
                  update_ne d (entry i o) (entry i j) _ (λ e. ne (entry_unique i j i o hj ho e).1))
                (λ d. update_self d (entry i j) _)),
      )
