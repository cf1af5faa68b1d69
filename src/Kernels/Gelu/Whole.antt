-- ===== src/Kernels/Gelu/Whole.antt =====
-- What the GELU layer leaves in its output (sw/dnn/gelu/src/gelu.h).
use snax_rebase.Base.{
  ℕ, zero, suc, ◌+◌, ◌*◌, ◌/◌, ◌%◌, ◌<◌, ◌≤◌, ◌≡◌, ◌≢◌, sym, ap, ◌∙◌, subst, arith, mod-lt,
}
use native.Mathlib.Nat.{div-add-mod', div-lt_iff_lt-mul}
use snax_rebase.Base.Grid.{loop_at, loop_off, row_unique}
use snax_rebase.Base.Loops.{loop}
use snax_rebase.Base.Memory.{update_self, update_ne}
use snax_rebase.Kernels.Float.{Float}
use snax_rebase.Kernels.Gelu.{
  Math, move, gelu_activation_fp64, gelu_fp64, cluster_fmap_size, gelu_cluster, gelu_layer,
}

move_at :
    {A : Type 0} (n : ℕ) (src : ℕ → A) (from : ℕ) (dst : ℕ → A) (to i : ℕ)
    → i < n
    → move n src from dst to (to + i) ≡ src (from + i)
unfolding move
move_at n src from dst to i h =
    loop_at _ (to + i) n dst i (λ _. src (from + i)) h
      (λ j d hj ne. update_ne d (to + j) (to + i) _ (λ e. ne (omega (arith, e))))
      (λ d. update_self d (to + i) _)

move_off :
    {A : Type 0} (n : ℕ) (src : ℕ → A) (from : ℕ) (dst : ℕ → A) (to y : ℕ)
    → ((i : ℕ) → i < n → to + i ≢ y)
    → move n src from dst to y ≡ dst y
unfolding move
move_off n src from dst to y out =
    loop_off _ y n dst (λ j d hj. update_ne d (to + j) y _ (out j hj))

from_zero : (i : ℕ) → 0 + i ≡ i
from_zero i = omega arith

load_at :
    {A : Type 0} (n : ℕ) (src : ℕ → A) (from : ℕ) (dst : ℕ → A) (i : ℕ)
    → i < n
    → move n src from dst 0 i ≡ src (from + i)
load_at n src from dst i h =
    ap (move n src from dst 0) (sym (from_zero i)) ∙ move_at n src from dst 0 i h

in_part : (idx i clusters w : ℕ) → idx < clusters → i < w → idx * w + i < clusters * w
in_part idx i clusters w h k = grind arith

factor_pos : (m n : ℕ) {y : ℕ} → y < m * n → 0 < n
factor_pos m n h = grind arith

module _ {A : Type 0} (f : Float A) (math : Math A) where
  gelu_entry :
      (cores : ℕ) (input output : ℕ → A) (size i : ℕ)
      → 0 < cores
      → i < size
      → gelu_fp64 f math cores input output size i ≡ gelu_activation_fp64 f math (input i)
  unfolding gelu_fp64 loop
  gelu_entry (suc cores) input output size i some h =
      loop_at _ i size _ i (λ _. gelu_activation_fp64 f math (input i)) h
        (λ j d hj ne. update_ne d j i _ ne) (λ d. update_self d i _)
  gelu_entry zero input output size i some h = absurd (omega arith)

  module _ (clusters cores size : ℕ) (ifmap : ℕ → A) (l1_ifmap l1_ofmap : ℕ → ℕ → A)
      (some_cores : 0 < cores) where
    abbrev width : ℕ
    width = cluster_fmap_size f math clusters cores size ifmap l1_ifmap l1_ofmap

    abbrev round : ℕ → (ℕ → A) → ℕ → A
    round = gelu_cluster f math clusters cores size ifmap l1_ifmap l1_ofmap

    abbrev loaded : ℕ → ℕ → A
    loaded idx = move width ifmap (idx * width) (l1_ifmap idx) 0

    abbrev computed : ℕ → ℕ → A
    computed idx = gelu_fp64 f math cores (loaded idx) (l1_ofmap idx) width

    own_part :
        (idx i : ℕ) (d : ℕ → A)
        → i < width
        → round idx d (idx * width + i) ≡ gelu_activation_fp64 f math (ifmap (idx * width + i))
    unfolding gelu_cluster
    own_part idx i d h =
        move_at width (computed idx) 0 d (idx * width) i h
        ∙ ap (computed idx) (from_zero i)
        ∙ gelu_entry cores (loaded idx) (l1_ofmap idx) width i some_cores h
        ∙ ap (gelu_activation_fp64 f math) (load_at width ifmap (idx * width) (l1_ifmap idx) i h)

    other_part :
        (idx y : ℕ) (d : ℕ → A) → ((i : ℕ) → i < width → idx * width + i ≢ y) → round idx d y ≡ d y
    unfolding gelu_cluster
    other_part idx y d out = move_off width (computed idx) 0 d (idx * width) y out

    -- With at least one compute core in each cluster, `gelu_layer` leaves the activation of the input in
    -- the elements that the clusters divide up among them, the last `size % clusters` are left out.
    pub gelu_elements :
        (ofmap : ℕ → A) (y : ℕ)
        → y < clusters * width
        → gelu_layer f math clusters cores size ifmap l1_ifmap l1_ofmap ofmap y
          ≡ gelu_activation_fp64 f math (ifmap y)
    unfolding gelu_layer
    gelu_elements ofmap y h =
        let some : 0 < width = factor_pos clusters width h in
        let place = div-add-mod' y width in
        loop_at round y clusters ofmap (y / width) (λ _. gelu_activation_fp64 f math (ifmap y))
          ((div-lt_iff_lt-mul some).1 h)
          (λ idx d hi ne. other_part idx y d (λ i hj e.
            ne
              (row_unique idx i (y / width) (y % width) width hj (mod-lt y some)
                (e ∙ sym place)).0))
          (λ d.
            subst (λ x. round (y / width) d x ≡ gelu_activation_fp64 f math (ifmap x)) place
              (own_part (y / width) (y % width) d (mod-lt y some)))

    -- The elements that are left out keep their values.
    pub gelu_rest :
        (ofmap : ℕ → A) (y : ℕ)
        → clusters * width ≤ y
        → gelu_layer f math clusters cores size ifmap l1_ifmap l1_ofmap ofmap y ≡ ofmap y
    unfolding gelu_layer
    gelu_rest ofmap y h = loop_off round y clusters ofmap (λ idx d hi.
        other_part idx y d (λ i hj e. omega (arith, in_part idx i clusters width hi hj, e, h)))
