-- ===== src/Kernels/Fused/Linear.antt =====
-- What the fused layer computes from its inputs (sw/dnn/fused_concat_linear/src/fused_concat_linear.h).
use snax_rebase.Base.{
  ℕ, ◌+◌, ◌*◌, ◌/◌, ◌%◌, ◌^◌, ◌≤◌, ◌<◌, ◌≡◌, inl, refl, ap, ◌∙◌, subst, le→ltb, arith, mod-lt,
  mod-eq_of_lt,
}
use native.Mathlib.Nat.{div-add-mod', div_self, div-lt_iff_lt-mul, mul_comm}
use snax_rebase.Base.Loops.{loop, loop-ext}
use snax_rebase.Base.Memory.{Memory}
use snax_rebase.Dma.Engine.{Transfer, Setup}
use snax_rebase.Dma.Fill.{CopiesRows}
use snax_rebase.Kernels.Concat.{concat_layer, concat_all}
use snax_rebase.Kernels.Concat.Places.{Room, concat_places}
use snax_rebase.Kernels.Float.{Float}
use snax_rebase.Kernels.Fused.{
  FusedLayer, concat_layer_cfg, linear_call, double_at, fused_concat_linear,
}
use snax_rebase.Kernels.Gemm.{multiply_opt}
use snax_rebase.Kernels.Gemm.Tiled.{Arrays, frac_m}
use snax_rebase.Kernels.Gemm.Tiled.Tile.{Shape, HasOne}
use snax_rebase.Kernels.Gemm.Tiled.Whole.{gemm_whole, naive_entry}

-- A double depends on its eight bytes alone.
abbrev pub ReadsEight : {A : Type 0} → ((ℕ → ℕ) → A) → Type 0
ReadsEight decode = (x y : ℕ → ℕ) → ((b : ℕ) → b < 8 → x b ≡ y b) → decode x ≡ decode y

byte_place :
    (r n i w p q b : ℕ)
    → i * w + p ≡ q
    → (r * n + i) * (w * 8) + (p * 8 + b) ≡ (r * (w * n) + q) * 8 + b
byte_place r n i w p q b e = grind arith

input_place : (r w p b : ℕ) → r * (w * 8) + (p * 8 + b) ≡ (r * w + p) * 8 + b
input_place r w p b = grind arith

in_columns : (p w b : ℕ) → p < w → b < 8 → p * 8 + b < w * 8
in_columns p w b hp hb = omega arith

k_small : (rows w n : ℕ) → 0 < rows → rows * (n * (w * 8)) < 2 ^ 31 → w * n < 2 ^ 32
k_small rows w n h small = grind arith

factor_pos : (w n : ℕ) {q : ℕ} → q < w * n → 0 < w
factor_pos w n h = grind arith

even : (c : ℕ) → 0 < c → c ≡ c * (c / c)
even c h = rw (div_self h) (omega arith)

-- Column `q` of row `i` of the concatenation, from the input that it comes from
abbrev pub input_element : {A : Type 0} → ((ℕ → ℕ) → A) → FusedLayer → Memory → ℕ → ℕ → A
input_element decode l m i q =
    double_at decode m (l.inputs (q / l.input_columns)) (i * l.input_columns + q % l.input_columns)

module _ {A : Type 0} (f : Float A) (one : HasOne f) (decode : (ℕ → ℕ) → A)
    (eight : ReadsEight decode) (l : FusedLayer) (room : Room (concat_layer_cfg l))
    (run : Transfer → Memory → Memory) (setup : Setup) (engine : CopiesRows run) (clusters tid : ℕ)
    (enough : l.num_inputs ≤ clusters) (m : Memory) where
  abbrev concatenated : Memory
  concatenated = concat_all run setup (concat_layer_cfg l) clusters tid m

  element :
      (i q : ℕ)
      → i < l.input_rows
      → q < l.input_columns * l.num_inputs
      → double_at decode concatenated l.concat_output (i * (l.input_columns * l.num_inputs) + q)
        ≡ input_element decode l m i q
  element i q hi hq =
      let w : 0 < l.input_columns = factor_pos l.input_columns l.num_inputs hq in
      let input : q / l.input_columns < l.num_inputs =
        (div-lt_iff_lt-mul w).1 (omega (arith, mul_comm l.num_inputs l.input_columns)) in
      let split = div-add-mod' q l.input_columns in
      eight _ _ (λ b hb.
        subst
          (λ x.
            concatenated (l.concat_output + x)
            ≡ m (
                l.inputs (q / l.input_columns)
                + ((i * l.input_columns + q % l.input_columns) * 8 + b)))
          (byte_place i l.num_inputs (q / l.input_columns) l.input_columns (q % l.input_columns) q b
            split)
          (subst
            (λ x.
              concatenated (
                l.concat_output
                + ((i * l.num_inputs + q / l.input_columns) * (l.input_columns * 8)
                    + (q % l.input_columns * 8 + b)))
              ≡ m (l.inputs (q / l.input_columns) + x))
            (input_place i l.input_columns (q % l.input_columns) b)
            (concat_places (concat_layer_cfg l) room run setup clusters tid m (q / l.input_columns)
              i (q % l.input_columns * 8 + b) engine enough input hi
              (in_columns (q % l.input_columns) l.input_columns b (mod-lt q w) hb))))

  -- With at most as many inputs as clusters, `fused_concat_linear_baseline` returns 0 and leaves in each
  -- element of the output the product of a row of the inputs, one input's row after the other, with a
  -- column of the weights, added to what `multiply_opt` makes of the old element and 0. The engine copies
  -- the rows in order, a double depends on its eight bytes alone, a factor of 1 is not zero and changes
  -- no number; inputs and concatenation have room as for `concat_layer`; the clusters divide the rows, the
  -- compute cores divide a cluster's rows, and the matrices fit the address space.
  pub fused_elements :
      (idx cores : ℕ) (tiles : ℕ → Arrays A) (weights linear_output : ℕ → A) (i j : ℕ)
      → Shape cores (linear_call l clusters)
      → clusters < 2 ^ 32
      → i < l.input_rows
      → j < l.output_columns
      → let after =
          fused_concat_linear f decode run setup l clusters idx cores tid tiles weights m
            linear_output in
        (after.0 ≡ 0)
        × (after.1 (i * l.output_columns + j)
            ≡ loop
                (l.input_columns * l.num_inputs)
                (λ q s.
                  f.add s
                    (f.mul (input_element decode l m i q) (weights (q * l.output_columns + j))))
                (multiply_opt f (linear_output (i * l.output_columns + j)) (f.of_nat 0)))
  unfolding fused_concat_linear concat_layer
  fused_elements idx cores tiles weights linear_output i j shape few hi hj =
      let a = double_at decode concatenated l.concat_output in
      let rows : i < clusters * frac_m (linear_call l clusters) =
        omega (arith, hi, shape.whole_m) in
      let start = multiply_opt f (linear_output (i * l.output_columns + j)) (f.of_nat 0) in
      (
        simp (le→ltb clusters l.num_inputs enough) refl,
        gemm_whole f one cores (linear_call l clusters) a weights shape clusters tiles linear_output
              i j
              (inl
                (refl, even clusters (factor_pos clusters (frac_m (linear_call l clusters)) rows)))
              few hi hj
            ∙ naive_entry f one cores (linear_call l clusters) a weights shape i j linear_output hi
                hj
            ∙ ap
                (λ k.
                  loop k
                    (λ q s. f.add s (f.mul (a (i * k + q)) (weights (q * l.output_columns + j))))
                    start)
                (mod-eq_of_lt
                  (k_small l.input_rows l.input_columns l.num_inputs (omega arith) room.small))
            ∙ loop-ext (l.input_columns * l.num_inputs) _ _ start (λ q s hq.
              ap (λ v. f.add s (f.mul v (weights (q * l.output_columns + j)))) (element i q hi hq)),
      )
