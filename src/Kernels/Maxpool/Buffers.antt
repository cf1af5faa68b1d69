-- ===== src/Kernels/Maxpool/Buffers.antt =====
-- What the compute cores leave in the output buffers in one round (sw/dnn/maxpool/src/maxpool.h).
use snax_rebase.Base.{
  ℕ, ◌+◌, ◌-◌, ◌*◌, ◌/◌, ◌%◌, ◌≤◌, ◌<◌, ◌≡◌, ◌⊎◌, inl, inr, sym, ap, ◌∙◌, subst, if◌then◌else◌,
  arith, mod-lt,
}
use native.Mathlib.Nat.{div-add-mod', div-lt_iff_lt-mul}
use snax_rebase.Base.Grid.{row_unique, write_grid, write_grid_at, write_grid_off}
use snax_rebase.Base.Loops.{loop, loop-ext, row_of}
use snax_rebase.Base.Memory.{update}
use snax_rebase.Kernels.Float.{Float}
use snax_rebase.Kernels.Maxpool.{Layer, input_half, output_half, maximum, maxpool_fp64, compute}

-- The first cluster, whose compute cores share a tile's channels without a rest, as tiles do the input's; and
-- a filter that is not empty.
pub record Shape (l : Layer) : Type 0 where
  pub first : l.cluster ≡ 0
  pub some_clusters : 0 < l.clusters
  pub some_cores : 0 < l.compute_num
  pub shared : l.tile_ci ≡ l.tile_ci / l.compute_num * l.compute_num
  pub tiled : l.channels ≡ l.channels / l.tile_ci * l.tile_ci
  pub some_channels : 0 < l.tile_ci
  pub some_rows : 0 < l.filter_height
  pub some_columns : 0 < l.filter_width

pub ceil_exact : (t q n : ℕ) → t ≡ q * n → 0 < n → (t + n - 1) / n ≡ q
ceil_exact t q n e h = ap (λ (x : ℕ). x / n) (split t q n e h) ∙ row_of q (n - 1) n (omega arith)
  where
    split : (t q n : ℕ) → t ≡ q * n → 0 < n → t + n - 1 ≡ q * n + (n - 1)
    split t q n e h = omega arith

shift : (p k n id y c : ℕ) → k ≡ 0 → p + (k * n + id) + (y + c) ≡ p + (y + (c + id))
shift p k n id y c e = let z : k * n ≡ 0 = rw e (omega arith) in omega (arith, z)

shift0 : (p k n id c : ℕ) → k ≡ 0 → p + (k * n + id) + c ≡ p + (c + id)
shift0 p k n id c e = let z : k * n ≡ 0 = rw e (omega arith) in omega (arith, z)

pub in_row : (t a w q : ℕ) → t < a → q < w → t * w + q < a * w
in_row t a w q h k = grind arith

module _ {A : Type 0} (f : Float A) (l : Layer) (shape : Shape l) where
  open l use {channels, filter_height, filter_width, tile_ci, compute_num}

  abbrev own_channels : ℕ
  own_channels = tile_ci / compute_num

  abbrev out_place : ℕ → ℕ → ℕ → ℕ
  out_place w id i = w * output_half l + (l.cluster * l.core_num + id) + i * compute_num

  abbrev core_max : (ℕ → A) → ℕ → ℕ → ℕ → A
  core_max ifmap r id i =
      maximum f l ifmap (r * input_half l + (l.cluster * l.core_num + id)) (i * compute_num)

  compute_grid :
      (r w : ℕ) (ifmap ofmap : ℕ → A)
      → compute f l r w ifmap ofmap
        ≡ write_grid (out_place w) (core_max ifmap r) compute_num own_channels ofmap
  unfolding compute maxpool_fp64
  compute_grid r w ifmap ofmap = loop-ext compute_num _ _ ofmap (λ id o h.
      ap (λ (n : ℕ). loop n (λ i o. update o (out_place w id i) (core_max ifmap r id i)) o)
        (ceil_exact tile_ci own_channels compute_num shape.shared shape.some_cores))

  place_lem : (w id i : ℕ) → out_place w id i ≡ w * output_half l + (i * compute_num + id)
  place_lem w id i =
      shift0 (w * output_half l) l.cluster l.core_num id (i * compute_num) shape.first

  -- The channels of core `id` start at its number.
  same_maximum :
      (r id i : ℕ) (ifmap : ℕ → A)
      → core_max ifmap r id i ≡ maximum f l ifmap (r * input_half l) (i * compute_num + id)
  unfolding maximum
  same_maximum r id i ifmap =
      ap (loop filter_height (λ fh. loop filter_width (pick (place fh))))
        (ap ifmap (shift0 (r * input_half l) l.cluster l.core_num id (i * compute_num) shape.first))
      ∙ loop-ext filter_height _ _ _ (λ fh m h. loop-ext filter_width _ _ m (λ fw m k.
        ap (λ (x : ℕ). if f.is_greater (ifmap x) m then ifmap x else m)
          (shift (r * input_half l) l.cluster l.core_num id ((fh * filter_width + fw) * tile_ci)
            (i * compute_num) shape.first)))
    where
      place : ℕ → ℕ → ℕ
      place fh fw =
          r * input_half l
          + (l.cluster * l.core_num + id)
          + ((fh * filter_width + fw) * tile_ci + i * compute_num)

      pick : (ℕ → ℕ) → ℕ → A → A
      pick p fw m = if f.is_greater (ifmap (p fw)) m then ifmap (p fw) else m

  pub compute_at :
      (r w e : ℕ) (ifmap ofmap : ℕ → A)
      → e < tile_ci
      → compute f l r w ifmap ofmap (w * output_half l + e) ≡ maximum f l ifmap (r * input_half l) e
  compute_at r w e ifmap ofmap h =
      let i = e / compute_num in
      let id = e % compute_num in
      let split = div-add-mod' e compute_num in
      let hi : i < own_channels =
        (div-lt_iff_lt-mul shape.some_cores).1 (omega (arith, h, shape.shared)) in
      let hid = mod-lt e shape.some_cores in
      let place = place_lem w id i in
      subst
        (λ y.
          compute f l r w ifmap ofmap y
          ≡ maximum f l ifmap (r * input_half l) (i * compute_num + id))
        (place ∙ ap (λ (x : ℕ). w * output_half l + x) split)
        (ap (λ g. g (out_place w id i)) (compute_grid r w ifmap ofmap)
          ∙ write_grid_at (out_place w) (core_max ifmap r) compute_num own_channels id i ofmap hid
              hi
              (λ id' i' hid' hi' same.
                let pair =
                  row_unique i' id' i id compute_num hid' hid
                    (omega (arith, same, place, place_lem w id' i')) in
                (pair.1, pair.0))
          ∙ same_maximum r id i ifmap)
      ∙ ap (λ (c : ℕ). maximum f l ifmap (r * input_half l) c) split

  pub compute_off :
      (r w y : ℕ) (ifmap ofmap : ℕ → A)
      → (y < w * output_half l) ⊎ (w * output_half l + output_half l ≤ y)
      → compute f l r w ifmap ofmap y ≡ ofmap y
  compute_off r w y ifmap ofmap h =
      ap (λ g. g y) (compute_grid r w ifmap ofmap)
      ∙ write_grid_off (out_place w) (core_max ifmap r) compute_num own_channels y ofmap
          (λ id i hid hi e. outside id i hid hi (sym (place_lem w id i) ∙ e) h)
    where
      outside :
          (id i : ℕ)
          → id < compute_num
          → i < own_channels
          → w * output_half l + (i * compute_num + id) ≡ y
          → (y < w * output_half l) ⊎ (w * output_half l + output_half l ≤ y)
          → ⊥
      outside id i hid hi e (inl low) = omega arith
      outside id i hid hi e (inr high) =
          omega (arith, in_row i own_channels compute_num id hi hid, shape.shared)
