-- ===== src/Kernels/Mnist/Forward.antt =====
-- The activations of sw/apps/mnist/nnlinear_baseline.h, which are computed in place.
use snax_rebase.Base.{
  ℕ, zero, suc, ◌+◌, ◌-◌, ◌*◌, ◌<◌, ◌≤◌, ◌≡◌, ◌≢◌, refl, ap, ap₂, ◌∙◌, subst, if◌then◌else◌,
  ℕ_discrete, arith,
}
use snax_rebase.Base.Loops.{loop, loop-ext}
use snax_rebase.Base.Grid.{loop_at, loop_off}
use snax_rebase.Base.Memory.{update, update_self, update_ne}
use snax_rebase.Kernels.Float.{Float}
use snax_rebase.Kernels.Mnist.{largest, normalize_activations, softmax_baseline, feed_forward}

module _ {A : Type 0} (f : Float A) (log : A → A) (classes in_ch batch_size : ℕ) where
  module _ (m : A) (a : ℕ → A) where
    abbrev shifted : ℕ → A
    shifted i = f.exp (f.sub (a i) m)

    abbrev shifted_sum : ℕ → A
    shifted_sum n = loop n (λ i s. f.add s (shifted i)) f.zero

    -- The first `n` values are replaced, the others are not yet.
    normalize_later :
        (n y : ℕ)
        → n ≤ y
        → (normalize_activations f log classes in_ch batch_size m a n).values y ≡ a y
    unfolding normalize_activations loop
    normalize_later zero y h = refl
    normalize_later (suc n) y h =
        update_ne (normalize_activations f log classes in_ch batch_size m a n).values n y _
          (omega arith)
        ∙ normalize_later n y (omega arith)

    normalize_values :
        (n i : ℕ)
        → i < n
        → (normalize_activations f log classes in_ch batch_size m a n).values i ≡ shifted i
    unfolding normalize_activations loop
    normalize_values zero i h = absurd (omega arith)
    normalize_values (suc n) i h = elim (ℕ_discrete n i) [
      | yes e ↦
          subst
            (λ y.
              (normalize_activations f log classes in_ch batch_size m a (suc n)).values y
              ≡ shifted y)
            e
            (update_self (normalize_activations f log classes in_ch batch_size m a n).values n _
              ∙ ap (λ v. f.exp (f.sub v m)) (normalize_later n n (omega arith)))
      | no ne ↦
          update_ne (normalize_activations f log classes in_ch batch_size m a n).values n i _ ne
          ∙ normalize_values n i (omega arith)
    ]

    normalize_sum :
        (n : ℕ) → (normalize_activations f log classes in_ch batch_size m a n).sum ≡ shifted_sum n
    unfolding normalize_activations loop
    normalize_sum zero = refl
    normalize_sum (suc n) =
        ap₂ (λ s v. f.add s (f.exp (f.sub v m))) (normalize_sum n)
          (normalize_later n n (omega arith))

  -- The share of class `i`, from activations `a`
  abbrev pub probability : (ℕ → A) → ℕ → ℕ → A
  probability a length i =
      f.div (shifted (largest f log classes in_ch batch_size a length) a i)
        (shifted_sum (largest f log classes in_ch batch_size a length) a length)

  softmax_entry :
      (a : ℕ → A) (length i : ℕ)
      → i < length
      → softmax_baseline f log classes in_ch batch_size a length i ≡ probability a length i
  unfolding softmax_baseline
  softmax_entry a length i h =
      let m = largest f log classes in_ch batch_size a length in
      let s = normalize_activations f log classes in_ch batch_size m a length in
      loop_at (λ i v. update v i (f.div (v i) s.sum)) i length s.values i (λ v. f.div v s.sum) h
        (λ j d hj ne. update_ne d j i _ ne) (λ d. update_self d i _)
      ∙ ap₂ f.div (normalize_values m a length i h) (normalize_sum m a length)

  largest-ext :
      (a b : ℕ → A) (n : ℕ)
      → 0 < n
      → ((j : ℕ) → j < n → a j ≡ b j)
      → largest f log classes in_ch batch_size a n ≡ largest f log classes in_ch batch_size b n
  unfolding largest
  largest-ext a b n some same =
      ap (loop (n - 1) (λ i. keep (a (i + 1)))) (same 0 some)
      ∙ loop-ext (n - 1) (λ i. keep (a (i + 1))) (λ i. keep (b (i + 1))) (b 0)
          (λ i m h. ap (λ v. keep v m) (same (i + 1) (omega arith)))
    where
      keep : A → A → A
      keep v m = if f.is_greater v m then v else m

  -- A share depends on the activations of the classes alone.
  probability-ext :
      (a b : ℕ → A) (n i : ℕ)
      → i < n
      → ((j : ℕ) → j < n → a j ≡ b j)
      → probability a n i ≡ probability b n i
  probability-ext a b n i h same =
      let m = largest-ext a b n (omega arith) same in
      ap₂ f.div (ap₂ (λ v m. f.exp (f.sub v m)) (same i h) m) (
        ap (λ m. loop n (λ j s. f.add s (f.exp (f.sub (a j) m))) f.zero) m
        ∙ loop-ext n _ _ f.zero (λ j s hj.
          ap (λ v. f.add s (f.exp (f.sub v (largest f log classes in_ch batch_size b n))))
            (same j hj)))

  -- The weighted sum of class `i`
  abbrev pub score : (ℕ → A) → (ℕ → A) → (ℕ → A) → ℕ → A
  score image biases weights i =
      loop in_ch (λ j v. f.add v (f.mul (weights (i * in_ch + j)) (image j))) (biases i)

  module _ (image weights : ℕ → A) (i : ℕ) where
    abbrev add_term : ℕ → (ℕ → A) → ℕ → A
    add_term j w = update w i (f.add (w i) (f.mul (weights (i * in_ch + j)) (image j)))

    terms_own :
        (n : ℕ) (v : ℕ → A)
        → loop n add_term v i
          ≡ loop n (λ j s. f.add s (f.mul (weights (i * in_ch + j)) (image j))) (v i)
    unfolding loop
    terms_own zero v = refl
    terms_own (suc n) v =
        update_self (loop n add_term v) i _
        ∙ ap (λ s. f.add s (f.mul (weights (i * in_ch + n)) (image n))) (terms_own n v)

    terms_off : (n y : ℕ) (v : ℕ → A) → i ≢ y → loop n add_term v y ≡ v y
    terms_off n y v ne = loop_off add_term y n v (λ j d h. update_ne d i y _ ne)

  -- `FeedForward_baseline`, with its softmax in place, leaves in each activation the share of the class:
  -- the exponential of its score less the largest score, by the sum of all of them.
  pub feed_forward_entry :
      (image biases weights activations : ℕ → A) (i : ℕ)
      → i < classes
      → feed_forward f log classes in_ch batch_size image biases weights activations i
        ≡ probability (score image biases weights) classes i
  unfolding feed_forward
  feed_forward_entry image biases weights activations i h =
      softmax_entry _ classes i h
      ∙ probability-ext _ (score image biases weights) classes i h (λ k hk.
        loop_at (λ i v. loop in_ch (add_term image weights i) (update v i (biases i))) k classes
          activations k (λ _. score image biases weights k) hk
          (λ j d hj ne.
            terms_off image weights j in_ch k (update d j (biases j)) ne
            ∙ update_ne d j k (biases j) ne)
          (λ d.
            terms_own image weights k in_ch (update d k (biases k))
            ∙ ap (loop in_ch (λ j s. f.add s (f.mul (weights (k * in_ch + j)) (image j))))
                (update_self d k (biases k))))
