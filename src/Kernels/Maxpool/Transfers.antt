-- ===== src/Kernels/Maxpool/Transfers.antt =====
-- What the transfers of one round load and store (sw/dnn/maxpool/src/maxpool.h).
use snax_rebase.Base.{
  ℕ, ◌+◌, ◌-◌, ◌*◌, ◌/◌, ◌%◌, ◌≤◌, ◌<◌, ◌≡◌, ◌⊎◌, inl, inr, sym, ap, ap₂, ◌∙◌, subst, ◌==◌,
  Bool-cases, ==_iff, mul_comm, mul_assoc, arith,
}
use native.Mathlib.Nat.{div-add-mod'}
use snax_rebase.Base.Grid.{row_unique, loop_at, loop_off, write_grid, write_grid_at, write_grid_off}
use snax_rebase.Base.Loops.{loop, loop-ext, loop-nest, row_of, column_of}
use snax_rebase.Base.Memory.{update, update_self, update_ne}
use snax_rebase.Kernels.Float.{Float}
use snax_rebase.Kernels.Maxpool.{Layer, Previous, input_half, output_half, this_round, load, store}
use snax_rebase.Kernels.Maxpool.Buffers.{Shape, ceil_exact, in_row}

first_only : (k t : ℕ) → k % 1 * t ≡ 0
first_only k t = let z : k % 1 ≡ 0 = omega arith in rw z (omega arith)

flat_source : (s z t ch x : ℕ) → z ≡ 0 → t ≡ ch → s * ch + x ≡ s * ch + z + (x / t * ch + x % t)
flat_source s z t ch x zero same =
    omega (arith, ap (λ (c : ℕ). x / t * c) same, div-add-mod' x t, zero)

regroup : (fh fw r t c : ℕ) → fh * (fw * t) + (r * t + c) ≡ (fh * fw + r) * t + c
regroup fh fw r t c = omega (arith, mul_assoc fh fw t)

-- The input's tile of round `k`, by filter row, and column and channel together
module _ {A : Type 0} (f : Float A) (l : Layer) (shape : Shape l) (input : ℕ → A) where
  open l use {channels, input_width, filter_height, filter_width, tile_ci}

  -- Where element `(fh, fw, c)` of the tile of round `k` stands in the input
  abbrev pub source : ℕ → ℕ → ℕ → ℕ → ℕ
  source k fh fw c =
      let this = this_round l k in
      ((this.oh * filter_height + fh) * input_width + this.ow * filter_width) * channels
      + this.ci
      + (fw * channels + c)

  abbrev span : ℕ
  span = filter_width * tile_ci

  abbrev load_place : ℕ → ℕ → ℕ → ℕ
  load_place w fh x = w * input_half l + fh * filter_width * tile_ci + x

  abbrev load_value : ℕ → ℕ → ℕ → A
  load_value k fh x = input (source k fh (x / tile_ci) (x % tile_ci))

  abbrev write_row : ℕ → ℕ → ℕ → ℕ → (ℕ → A) → ℕ → A
  write_row w k fh x o = update o (load_place w fh x) (load_value k fh x)

  -- A tile with all channels starts at the first one.
  no_offset : (k : ℕ) → tile_ci ≡ channels → (this_round l k).ci ≡ 0
  no_offset k same =
      ap (λ (q : ℕ). k % q * tile_ci)
        (ceil_exact channels 1 tile_ci (omega (arith, same)) shape.some_channels)
      ∙ first_only k tile_ci

  whole_row :
      (w k fh : ℕ) (m : ℕ → A)
      → tile_ci ≡ channels
      → loop
          (tile_ci * filter_width)
          (λ x o. update o (load_place w fh x) (
            input (
              (((this_round l k).oh * filter_height + fh) * input_width
                  + (this_round l k).ow * filter_width)
                * channels
              + x)))
          m
        ≡ loop span (write_row w k fh) m
  whole_row w k fh m same =
      loop-ext (tile_ci * filter_width) _ (write_row w k fh) m (λ x o h.
        ap (λ (y : ℕ). update o (load_place w fh x) (input y))
          (flat_source
            (((this_round l k).oh * filter_height + fh) * input_width
              + (this_round l k).ow * filter_width)
            (this_round l k).ci tile_ci channels x (no_offset k same) same))
      ∙ ap (λ (n : ℕ). loop n (write_row w k fh) m) (mul_comm tile_ci filter_width)

  load_grid :
      (w k : ℕ) (ifmap : ℕ → A)
      → load f l input w k ifmap ≡ write_grid (load_place w) (load_value k) filter_height span ifmap
  unfolding load
  load_grid w k ifmap = loop-ext filter_height _ _ ifmap (λ fh m h.
      elim (Bool-cases (tile_ci == channels)) [
        | inl same ↦ simp same (whole_row w k fh m ((==_iff tile_ci channels).0 same))
        | inr other ↦ simp other (
            loop-ext filter_width _ _ m (λ r d hr. loop-ext tile_ci _ _ d (λ e o he.
              ap₂
                (λ (u v : ℕ).
                  update o (load_place w fh (r * tile_ci + e)) (input (source k fh u v)))
                (sym (row_of r e tile_ci he)) (sym (column_of r e tile_ci he))))
            ∙ loop-nest filter_width tile_ci (write_row w k fh) m)
      ])

  place_in : (w fh x : ℕ) → load_place w fh x ≡ w * input_half l + (fh * span + x)
  place_in w fh x = omega (arith, mul_assoc fh filter_width tile_ci)

  half_rows : input_half l ≡ filter_height * span
  half_rows = mul_assoc filter_height filter_width tile_ci

  -- After the loads of round `k` the half `w` holds the tile,
  pub load_at :
      (w k fh fw c : ℕ) (ifmap : ℕ → A)
      → fh < filter_height
      → fw < filter_width
      → c < tile_ci
      → load f l input w k ifmap (w * input_half l + ((fh * filter_width + fw) * tile_ci + c))
        ≡ input (source k fh fw c)
  load_at w k fh fw c ifmap hh hw hc =
      let x = fw * tile_ci + c in
      let hx : x < span = in_row fw filter_width tile_ci c hw hc in
      subst (λ y. load f l input w k ifmap y ≡ load_value k fh x)
        (place_in w fh x
          ∙ ap (λ (o : ℕ). w * input_half l + o) (regroup fh filter_width fw tile_ci c))
        (ap (λ g. g (load_place w fh x)) (load_grid w k ifmap)
          ∙ write_grid_at (load_place w) (load_value k) filter_height span fh x ifmap hh hx
              (λ fh' x' hh' hx' e.
                row_unique fh' x' fh x span hx' hx
                  (omega (arith, e, place_in w fh x, place_in w fh' x'))))
      ∙ ap₂ (λ u v. input (source k fh u v)) (row_of fw c tile_ci hc) (column_of fw c tile_ci hc)

  -- and no element outside that half has changed.
  pub load_off :
      (w k y : ℕ) (ifmap : ℕ → A)
      → (y < w * input_half l) ⊎ (w * input_half l + input_half l ≤ y)
      → load f l input w k ifmap y ≡ ifmap y
  load_off w k y ifmap h =
      ap (λ g. g y) (load_grid w k ifmap)
      ∙ write_grid_off (load_place w) (load_value k) filter_height span y ifmap
          (λ fh x hh hx e. outside fh x hh hx (sym (place_in w fh x) ∙ e) h)
    where
      outside :
          (fh x : ℕ)
          → fh < filter_height
          → x < span
          → w * input_half l + (fh * span + x) ≡ y
          → (y < w * input_half l) ⊎ (w * input_half l + input_half l ≤ y)
          → ⊥
      outside fh x hh hx e (inl low) = omega arith
      outside fh x hh hx e (inr high) =
          omega (arith, in_row fh filter_height span x hh hx, half_rows)

-- Where the output of a round starts
abbrev pub out_start : Layer → Previous → ℕ
out_start l last = (last.oh * l.output_width + last.ow) * l.channels + last.ci

module _ {A : Type 0} (f : Float A) (l : Layer) where
  open l use {channels, output_width, tile_ci}

  -- The store of a round writes its output from one half of the buffer,
  pub store_at :
      (last : Previous) (r e : ℕ) (ofmap output : ℕ → A)
      → e < tile_ci
      → store f l last r ofmap output (out_start l last + e) ≡ ofmap ((1 - r) * output_half l + e)
  unfolding store
  store_at last r e ofmap output h =
      loop_at _ (out_start l last + e) tile_ci output e (λ _. ofmap ((1 - r) * output_half l + e)) h
        (λ i o hi ne.
          update_ne o (out_start l last + i) (out_start l last + e) _ (λ q. ne (omega arith)))
        (λ o. update_self o (out_start l last + e) _)

  -- and nothing else.
  pub store_off :
      (last : Previous) (r y : ℕ) (ofmap output : ℕ → A)
      → (y < out_start l last) ⊎ (out_start l last + tile_ci ≤ y)
      → store f l last r ofmap output y ≡ output y
  unfolding store
  store_off last r y ofmap output h =
      loop_off _ y tile_ci output
        (λ i o hi. update_ne o (out_start l last + i) y _ (λ q. outside i hi q h))
    where
      outside :
          (i : ℕ)
          → i < tile_ci
          → out_start l last + i ≡ y
          → (y < out_start l last) ⊎ (out_start l last + tile_ci ≤ y)
          → ⊥
      outside i hi q (inl low) = omega arith
      outside i hi q (inr high) = omega arith
