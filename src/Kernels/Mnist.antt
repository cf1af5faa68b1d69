-- ===== src/Kernels/Mnist.antt =====
-- The single-core kernels of sw/apps/mnist/nnlinear_baseline.h: a linear layer with softmax, its gradients
-- and the update of its parameters. `classes`, `in_ch` and `batch_size` are `NUM_CLASSES`, `IN_CH` and
-- `BATCH_SIZE`: 10, 784 and 256. The arrays do not overlap.
pub mod Forward
pub mod Backward
use snax_rebase.Base.{ℕ, ◌+◌, ◌-◌, ◌*◌, ◌==◌, if◌then◌else◌}
use snax_rebase.Base.Loops.{loop}
use snax_rebase.Base.Memory.{update}
use snax_rebase.Kernels.Float.{Float}
use snax_rebase.Kernels.Normalize.{Exps}

-- The gradients that one image is added to
pub record Gradients (A : Type 0) : Type 0 where
  pub weights : ℕ → A
  pub biases : ℕ → A

-- What `GradientUpdate_baseline` leaves: the activations, the loss and the gradients.
pub record ImageUpdate (A : Type 0) : Type 0 where
  pub activations : ℕ → A
  pub loss : A
  pub gradients : Gradients A

pub record Parameters (A : Type 0) : Type 0 where
  pub weights : ℕ → A
  pub biases : ℕ → A

-- `log` is the C library's.
module _ {A : Type 0} (f : Float A) (log : A → A) (classes in_ch batch_size : ℕ) where
  unfoldable pub largest : (ℕ → A) → ℕ → A
  largest activations length =
      loop (length - 1)
        (λ i m. if f.is_greater (activations (i + 1)) m then activations (i + 1) else m)
        (activations 0)

  -- The loop that replaces the activations and adds them up
  unfoldable pub normalize_activations : A → (ℕ → A) → ℕ → Exps A
  normalize_activations m activations length =
      loop length
        (λ i s.
          let v = f.exp (f.sub (s.values i) m) in
          record { values = update s.values i v; sum = f.add s.sum v })
        (record { values = activations; sum = f.zero })

  unfoldable pub softmax_baseline : (ℕ → A) → ℕ → ℕ → A
  unfolding largest normalize_activations
  softmax_baseline activations length =
      let s = normalize_activations (largest activations length) activations length in
      loop length (λ i v. update v i (f.div (v i) s.sum)) s.values

  unfoldable pub feed_forward : (ℕ → A) → (ℕ → A) → (ℕ → A) → (ℕ → A) → ℕ → A
  unfolding softmax_baseline
  feed_forward image biases weights activations =
      softmax_baseline
        (loop classes
          (λ i v.
            loop in_ch (λ j w. update w i (f.add (w i) (f.mul (weights (i * in_ch + j)) (image j))))
              (update v i (biases i)))
          activations)
        classes

  -- `b_grad`, by the activations
  unfoldable pub b_grad : (ℕ → A) → ℕ → ℕ → A
  b_grad activations label i =
      if i == label then f.sub (activations i) (f.of_nat 1) else activations i

  unfoldable pub add_gradients : (ℕ → A) → (ℕ → A) → ℕ → Gradients A → Gradients A
  unfolding b_grad
  add_gradients image activations label g =
      loop classes
        (λ i g. record {
          weights =
              loop in_ch
                (λ j w.
                  update w (i * in_ch + j)
                    (f.add (w (i * in_ch + j)) (f.mul (b_grad activations label i) (image j))))
                g.weights;
          biases = update g.biases i (f.add (g.biases i) (b_grad activations label i));
        })
        g

  unfoldable pub gradient_update :
      (ℕ → A) → (ℕ → A) → (ℕ → A) → ℕ → (ℕ → A) → Gradients A → ImageUpdate A
  unfolding feed_forward add_gradients
  gradient_update image biases weights label activations g =
      let fed = feed_forward image biases weights activations in
      record {
        activations = fed;
        loss = f.sub f.zero (log (fed label));
        gradients = add_gradients image fed label g;
      }

  unfoldable pub training_step : A → Gradients A → Parameters A → Parameters A
  training_step learning_rate g p =
      loop classes
        (λ i p. record {
          biases =
              update p.biases i (
                f.sub (p.biases i)
                  (f.div (f.mul learning_rate (g.biases i)) (f.of_nat batch_size)));
          weights =
              loop in_ch
                (λ j w. update w (i * in_ch + j) (
                  f.sub (w (i * in_ch + j)) (
                    f.div (f.mul learning_rate (g.weights (i * in_ch + j))) (f.of_nat batch_size))))
                p.weights;
        })
        p
