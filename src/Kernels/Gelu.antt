-- ===== src/Kernels/Gelu.antt =====
-- The GELU layer (sw/dnn/gelu/src/gelu.h). The transfers move whole elements here: Dma/Start says which
-- bytes they are. The bytes of the maps fit the address space.
pub mod Whole
use snax_rebase.Base.{ℕ, ◌+◌, ◌*◌, if◌then◌else◌}
use snax_rebase.Base.Loops.{loop}
use snax_rebase.Base.Memory.{update}
use snax_rebase.Base.Words.{div_u32}
use snax_rebase.Kernels.Float.{Float}

-- The functions that the activations use, a negation among them, and their constants
pub record Math (A : Type 0) : Type 0 where
  pub tanh : A → A
  pub fabs : A → A
  pub neg : A → A
  pub m_pi : A
  pub half : A  -- 0.5
  pub cubic : A  -- 0.044715
  pub sqrt2_inv : A  -- 1 / 1.4142135623730951

-- The elements that a transfer of `n` elements moves, once the engine is done
unfoldable pub move : {A : Type 0} → ℕ → (ℕ → A) → ℕ → (ℕ → A) → ℕ → ℕ → A
move n src from dst to = loop n (λ i d. update d (to + i) (src (from + i))) dst

module _ {A : Type 0} (f : Float A) (math : Math A) where
  unfoldable pub gelu_activation_fp64 : A → A
  gelu_activation_fp64 x = f.mul (f.mul math.half x) (
      f.add (f.of_nat 1) (
        math.tanh (
          f.mul (f.sqrt (f.div (f.of_nat 2) math.m_pi))
            (f.add x (f.mul (f.mul (f.mul math.cubic x) x) x)))))

  unfoldable pub sigmoid_gelu_fp64 : A → A → A → A
  sigmoid_gelu_fp64 x a b =
      let sign = if f.is_greater x f.zero then f.of_nat 1 else math.neg (f.of_nat 1) in
      let scaled = math.fabs (f.mul math.sqrt2_inv x) in
      let arg = if f.is_greater scaled (math.neg b) then math.neg b else scaled in
      let l = f.mul sign (f.add (f.mul (f.mul a arg) arg) (f.of_nat 1)) in
      f.mul (f.mul x math.half) (f.add (f.of_nat 1) l)

  -- Each compute core computes all elements.
  unfoldable pub gelu_fp64 : ℕ → (ℕ → A) → (ℕ → A) → ℕ → ℕ → A
  unfolding gelu_activation_fp64
  gelu_fp64 cores input output size =
      loop cores (λ core o. loop size (λ i o. update o i (gelu_activation_fp64 (input i))) o) output

  module _ (clusters cores size : ℕ) (ifmap : ℕ → A) (l1_ifmap l1_ofmap : ℕ → ℕ → A) where
    abbrev pub cluster_fmap_size : ℕ
    cluster_fmap_size = div_u32 size clusters

    -- Cluster `idx`, with its local maps as earlier code left them
    unfoldable pub gelu_cluster : ℕ → (ℕ → A) → ℕ → A
    unfolding gelu_fp64 move
    gelu_cluster idx ofmap =
        let offset : ℕ = idx * cluster_fmap_size in
        let loaded = move cluster_fmap_size ifmap offset (l1_ifmap idx) 0 in
        let computed = gelu_fp64 cores loaded (l1_ofmap idx) cluster_fmap_size in
        move cluster_fmap_size computed 0 ofmap offset

    -- The order of the clusters does not matter: they write different elements.
    unfoldable pub gelu_layer : (ℕ → A) → ℕ → A
    unfolding gelu_cluster
    gelu_layer ofmap = loop clusters gelu_cluster ofmap
