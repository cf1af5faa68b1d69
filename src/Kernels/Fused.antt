-- ===== src/Kernels/Fused.antt =====
-- `fused_concat_linear_baseline` (sw/dnn/fused_concat_linear/src/fused_concat_linear.h): the
-- concatenation of the inputs, and the product of the result with the weights.
pub mod Linear
use snax_rebase.Base.{ℕ, ◌+◌, ◌*◌, true, false}
use snax_rebase.Base.Memory.{Memory}
use snax_rebase.Base.Words.{mul_u32}
use snax_rebase.Dma.Engine.{Transfer, Setup}
use snax_rebase.Kernels.Concat.{ConcatLayer, concat_layer, concat_all}
use snax_rebase.Kernels.Float.{Float}
use snax_rebase.Kernels.Gemm.Tiled.{Call, Arrays, gemm}

-- `fused_concat_linear_layer_t` without the weights and the output, which are arrays here, and without
-- `dtype` and `baseline`: the elements are doubles, and the baseline is taken.
pub record FusedLayer : Type 0 where
  pub num_inputs : ℕ
  pub input_rows : ℕ  -- `input_shape[0]`
  pub input_columns : ℕ  -- `input_shape[1]`
  pub output_columns : ℕ  -- `output_shape[1]`
  pub inputs : ℕ → ℕ
  pub concat_output : ℕ

abbrev pub concat_layer_cfg : FusedLayer → ConcatLayer
concat_layer_cfg l = record {
  num_inputs = l.num_inputs;
  height = l.input_rows;
  width = l.input_columns;
  inputs = l.inputs;
  output = l.concat_output;
}

abbrev pub linear_call : FusedLayer → ℕ → Call
linear_call l clusters = record {
  parallelize_m = true;
  m_tiles = clusters;
  n_tiles = 1;
  k_tiles = 1;
  transa = false;
  transb = false;
  m = l.input_rows;
  n = l.output_columns;
  k = mul_u32 l.input_columns l.num_inputs;
  beta = 0;
}

-- The `i`th double at an address, with `decode` the value of eight bytes
abbrev pub double_at : {A : Type 0} → ((ℕ → ℕ) → A) → Memory → ℕ → ℕ → A
double_at decode m start i = decode (λ b. m (start + (i * 8 + b)))

-- What the cores of cluster `idx` return, and the output that all clusters leave. The weights
-- and the output do not overlap the concatenation.
unfoldable pub fused_concat_linear :
    {A : Type 0}
    → Float A
    → ((ℕ → ℕ) → A)
    → (Transfer → Memory → Memory)
    → Setup
    → FusedLayer
    → ℕ
    → ℕ
    → ℕ
    → ℕ
    → (ℕ → Arrays A)
    → (ℕ → A)
    → Memory
    → (ℕ → A)
    → ℕ × (ℕ → A)
unfolding concat_all concat_layer gemm
fused_concat_linear f decode run setup l clusters idx cores tid tiles weights m linear_output =
    let concatenated = concat_all run setup (concat_layer_cfg l) clusters tid m in
    (
      (concat_layer (concat_layer_cfg l) clusters idx tid).0,
      gemm f cores (linear_call l clusters) (double_at decode concatenated l.concat_output) weights
          clusters tiles linear_output,
    )
