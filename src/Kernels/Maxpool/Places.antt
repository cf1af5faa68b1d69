-- ===== src/Kernels/Maxpool/Places.antt =====
-- The places of the rounds' outputs, the halves of the buffers, and the value that an output should have
-- (sw/dnn/maxpool/src/maxpool.h).
use snax_rebase.Base.{
  ℕ, zero, suc, ◌+◌, ◌*◌, ◌/◌, ◌%◌, ◌≤◌, ◌<◌, ◌≡◌, ◌≢◌, ◌⊎◌, inl, inr, sym, ap, ap₂, ◌∙◌,
  if◌then◌else◌, dec_lt, mul_assoc, arith, mod-lt,
}
use native.Mathlib.Nat.{div-add-mod'}
use snax_rebase.Base.Grid.{row_unique}
use snax_rebase.Base.Loops.{loop, loop-ext}
use snax_rebase.Kernels.Float.{Float}
use snax_rebase.Kernels.Maxpool.{Layer, input_half, channel_rounds, tile, this_round, maximum}
use snax_rebase.Kernels.Maxpool.Buffers.{Shape, ceil_exact}
use snax_rebase.Kernels.Maxpool.Transfers.{source, out_start}

pub other_half :
    (b b' h z : ℕ) → b' + b ≡ 1 → z < h → (b' * h + z < b * h) ⊎ (b * h + h ≤ b' * h + z)
other_half zero b' h z e hz = let one : b' ≡ 1 = omega arith in rw one (inr (omega arith))
other_half (suc b) b' h z e hz =
    let none_left : b ≡ 0 = omega arith in
    let first : b' ≡ 0 = omega arith in rw (none_left, first) (inl (omega arith))

next_row : (x y t : ℕ) → x < y → x * t + t ≤ y * t
next_row x y t h = grind arith

pub apart : (x y t e : ℕ) → x ≢ y → e < t → (x * t + e < y * t) ⊎ (y * t + t ≤ x * t + e)
apart x y t e ne he = elim (dec_lt x y) [
  | yes below ↦ inl (omega (arith, next_row x y t below))
  | no above ↦ inr (omega (arith, next_row y x t (omega arith)))
]

scaled : (x r c j t : ℕ) → c ≡ j * t → x * c + r * t ≡ (x * j + r) * t
scaled x r c j t e = omega (arith, ap (λ (q : ℕ). x * q) e, mul_assoc x j t)

first_place : (p w t c : ℕ) → p + c ≡ p + ((0 * w + 0) * t + c)
first_place p w t c = let z : (0 * w + 0) * t ≡ 0 = grind arith in omega (arith, z)

module _ (l : Layer) (shape : Shape l) where
  open l use {channels, output_width, tile_ci, clusters, cluster}

  abbrev per_tile : ℕ
  per_tile = channel_rounds l

  abbrev pub slot : ℕ → ℕ
  slot k = tile l k * per_tile + k % per_tile

  whole : channels ≡ per_tile * tile_ci
  whole =
      shape.tiled
      ∙ ap (λ (q : ℕ). q * tile_ci)
          (sym (ceil_exact channels (channels / tile_ci) tile_ci shape.tiled shape.some_channels))

  pub out_start-slot : (k : ℕ) → out_start l (this_round l k) ≡ slot k * tile_ci
  out_start-slot k =
      ap (λ (x : ℕ). x * channels + k % per_tile * tile_ci) (div-add-mod' (tile l k) output_width)
      ∙ scaled (tile l k) (k % per_tile) channels per_tile tile_ci whole

  pub slot_unique : (k k' : ℕ) → 0 < per_tile → k ≢ k' → slot k ≢ slot k'
  slot_unique k k' some ne e =
      let (tiles, rest) =
        row_unique (tile l k) (k % per_tile) (tile l k') (k' % per_tile) per_tile (mod-lt k some)
          (mod-lt k' some) e in
      let quotients =
        row_unique (k / per_tile) 0 (k' / per_tile) 0 clusters shape.some_clusters
          shape.some_clusters (omega (arith, tiles)) in
      ne (
        sym (div-add-mod' k per_tile)
        ∙ ap₂ (λ (q r : ℕ). q * per_tile + r) quotients.0 rest
        ∙ div-add-mod' k' per_tile)

module _ {A : Type 0} (f : Float A) (l : Layer) (shape : Shape l) (input : ℕ → A) where
  open l use {filter_height, filter_width, tile_ci}

  -- The largest input under the filter, as the comparison finds it from the first one on
  pub pooled : ℕ → ℕ → A
  pooled k c =
      loop filter_height
        (λ fh. loop filter_width (λ fw m.
          let v = input (source f l shape input k fh fw c) in if f.is_greater v m then v else m))
        (input (source f l shape input k 0 0 c))

  -- A half of the input buffer holds the tile of a round.
  abbrev pub Holds : (ℕ → A) → ℕ → ℕ → Type 0
  Holds ifmap b k =
      (fh fw c : ℕ)
      → fh < filter_height
      → fw < filter_width
      → c < tile_ci
      → ifmap (b * input_half l + ((fh * filter_width + fw) * tile_ci + c))
        ≡ input (source f l shape input k fh fw c)

  pub maximum-pooled :
      (ifmap : ℕ → A) (b k c : ℕ)
      → Holds ifmap b k
      → c < tile_ci
      → maximum f l ifmap (b * input_half l) c ≡ pooled k c
  unfolding maximum pooled
  maximum-pooled ifmap b k c holds hc =
      ap (loop filter_height (λ fh. loop filter_width (λ fw. pick (ifmap (at fh fw))))) (
        ap ifmap (first_place (b * input_half l) filter_width tile_ci c)
        ∙ holds 0 0 c shape.some_rows shape.some_columns hc)
      ∙ loop-ext filter_height _ _ _ (λ fh m hh.
        loop-ext filter_width _ _ m (λ fw x hw. ap (λ v. pick v x) (holds fh fw c hh hw hc)))
    where
      at : ℕ → ℕ → ℕ
      at fh fw = b * input_half l + ((fh * filter_width + fw) * tile_ci + c)

      pick : A → A → A
      pick v m = if f.is_greater v m then v else m
