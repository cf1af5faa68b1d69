-- ===== src/Examples/Kernels.antt =====
-- Kernels over natural numbers in place of floating-point ones.
use snax_rebase.Base.{
  ℕ, ◌+◌, ◌-◌, ◌*◌, ◌/◌, ◌≡◌, refl, ap₂, inl, true, false, not, ltb, ◌==◌, arith,
}
use snax_rebase.Base.Loops.{loop}
use snax_rebase.Kernels.Float.{Float}
use snax_rebase.Base.Memory.{Memory}
use snax_rebase.Dma.Engine.{Transfer, Setup, copy_rows}
use snax_rebase.Kernels.Concat.{ConcatLayer, concat_all}
use snax_rebase.Kernels.Concat.Places.{Room, concat_places}
use snax_rebase.Kernels.Normalize.{layernorm_fp32_naive}
use snax_rebase.Kernels.Normalize.Layernorm.{standardized, layernorm_elements}
use snax_rebase.Kernels.Fused.{FusedLayer, linear_call, fused_concat_linear}
use snax_rebase.Kernels.Fused.Linear.{ReadsEight, input_element, fused_elements}
use snax_rebase.Kernels.Gemm.{Operand, multiply_opt, gemm_naive, cluster_gemm}
use snax_rebase.Kernels.Gemm.Entry.{Fits}
use snax_rebase.Kernels.Gemm.Cores.{cluster_gemm_rows, cluster_gemm_rest}
use snax_rebase.Kernels.Gemm.Tiled.{Call, Arrays, gemm}
use snax_rebase.Kernels.Gemm.Tiled.Tile.{Shape, HasOne}
use snax_rebase.Kernels.Gemm.Tiled.Whole.{gemm_whole}

abbrev whole : Float ℕ
whole = record {
  zero = 0;
  add = λ a b. a + b;
  sub = λ a b. a - b;
  mul = λ a b. a * b;
  div = λ a b. a / b;
  sqrt = λ a. a;
  exp = λ a. a;
  neg_infinity = 0;
  of_nat = λ a. a;
  is_greater = λ a b. ltb b a;
  is_nonzero = λ a. not (a == 0);
}

-- Rows of two elements, three places apart, and the second operand transposed
abbrev left : Operand ℕ
left = record { elements = λ i. i; start = 4; ld = 3; transposed = false }

abbrev right : Operand ℕ
right = record { elements = λ i. 2 * i; start = 0; ld = 2; transposed = true }

abbrev held : ℕ → ℕ
held x = x + 7

-- The result has five rows of two elements, three places apart.
five_rows : Fits 5 2 3
five_rows = record { columns = omega arith; rows = omega arith }

cluster_gemm_rows_example :
    cluster_gemm whole 2 5 2 2 left right 9 3 1 held (9 + (3 * 3 + 1))
    ≡ gemm_naive whole 5 2 2 left right 9 3 1 held (9 + (3 * 3 + 1))
cluster_gemm_rows_example =
    cluster_gemm_rows whole 2 5 2 2 left right 9 3 1 (omega arith) five_rows refl (omega arith)
      (omega arith) 3 1 held (omega arith) (omega arith)

cluster_gemm_rest_example :
    cluster_gemm whole 2 5 2 2 left right 9 3 1 held (9 + (4 * 3 + 1)) ≡ held (9 + (4 * 3 + 1))
cluster_gemm_rest_example =
    cluster_gemm_rest whole 2 5 2 2 left right 9 3 1 (omega arith) five_rows 4 1 held (omega arith)
      (omega arith)

-- A product of matrices with four rows and columns, in tiles of two, on two clusters
abbrev in_tiles : Call
in_tiles = record {
  parallelize_m = true;
  m_tiles = 2;
  n_tiles = 2;
  k_tiles = 2;
  transa = false;
  transb = false;
  m = 4;
  n = 4;
  k = 4;
  beta = 3;
}

in_tiles-Shape : Shape 2 in_tiles
in_tiles-Shape = record {
  some_cores = omega arith;
  plain_a = refl;
  plain_b = refl;
  whole_m = refl;
  whole_n = refl;
  whole_k = refl;
  some_k = omega arith;
  shared = refl;
  room_a = omega arith;
  room_b = omega arith;
  room_c = omega arith;
}

whole-HasOne : HasOne whole
whole-HasOne = record { nonzero = refl; one = λ x. omega arith }

abbrev unused : Arrays ℕ
unused = record { local_a = held; local_b = held; local_c = held; c = held }

gemm_whole_example :
    gemm whole 2 in_tiles (λ i. i + 1) (λ i. 2 * i) 2 (λ _. unused) held (3 * 4 + 1)
    ≡ gemm_naive whole 4 4 4
        (record { elements = λ i. i + 1; start = 0; ld = 4; transposed = false })
        (record { elements = λ i. 2 * i; start = 0; ld = 4; transposed = false })
        0
        4
        3
        held
        (3 * 4 + 1)
gemm_whole_example =
    gemm_whole whole whole-HasOne 2 in_tiles (λ i. i + 1) (λ i. 2 * i) in_tiles-Shape 2
      (λ _. unused) held 3 1 (inl (refl, refl)) (omega arith) (omega arith) (omega arith)

-- Four samples of five attributes, on two cores: the fifth attribute is left out.
abbrev samples : ℕ → ℕ
samples x = x * x + 1

-- Two inputs of two rows of two elements, on three clusters
abbrev layer : ConcatLayer
layer = record { num_inputs = 2; height = 2; width = 2; inputs = λ i. 1024 + 64 * i; output = 4096 }

layer-Room : Room layer
layer-Room = record {
  small = omega arith;
  top = omega arith;
  inputs_top = λ i h. omega arith;
  apart = λ i h. inl (omega arith);
}

abbrev engine : Transfer → Memory → Memory
engine t = copy_rows t.reps 0 t

abbrev setup : Setup
setup = record { src = 0; dst = 0; src_stride = 0; dst_stride = 0; reps = 0 }

abbrev bytes : Memory
bytes x = x + 5

concat_places_example :
    concat_all engine setup layer 3 0 bytes (4096 + ((1 * 2 + 1) * (2 * 8) + 7))
    ≡ bytes (1088 + (1 * 16 + 7))
concat_places_example =
    concat_places layer layer-Room engine setup 3 0 bytes 1 1 7 (λ t m x. refl) (omega arith)
      (omega arith) (omega arith) (omega arith)

-- The same inputs, times a matrix of four rows and two columns
abbrev fused_layer : FusedLayer
fused_layer = record {
  num_inputs = 2;
  input_rows = 2;
  input_columns = 2;
  output_columns = 2;
  inputs = λ i. 1024 + 64 * i;
  concat_output = 4096;
}

abbrev decode_ends : (ℕ → ℕ) → ℕ
decode_ends x = x 0 + 256 * x 7

decode_ends-ReadsEight : ReadsEight decode_ends
decode_ends-ReadsEight x y same =
    ap₂ (λ a b. a + 256 * b) (same 0 (omega arith)) (same 7 (omega arith))

fused_layer-Shape : Shape 1 (linear_call fused_layer 2)
fused_layer-Shape = record {
  some_cores = omega arith;
  plain_a = refl;
  plain_b = refl;
  whole_m = refl;
  whole_n = refl;
  whole_k = refl;
  some_k = omega arith;
  shared = refl;
  room_a = omega arith;
  room_b = omega arith;
  room_c = omega arith;
}

fused_elements_example :
    let after =
      fused_concat_linear whole decode_ends engine setup fused_layer 2 1 1 0
        (λ _. unused)
        (λ i. i + 1)
        bytes
        held in
    (after.0 ≡ 0)
    × (after.1 (1 * 2 + 1)
        ≡ loop 4
            (λ q s. s + input_element decode_ends fused_layer bytes 1 q * (q * 2 + 1 + 1))
            (multiply_opt whole (held (1 * 2 + 1)) 0))
fused_elements_example =
    fused_elements whole whole-HasOne decode_ends decode_ends-ReadsEight fused_layer layer-Room
      engine setup (λ t m x. refl) 2 0 (omega arith) bytes 1 1 (λ _. unused) (λ i. i + 1) held 1 1
      fused_layer-Shape (omega arith) (omega arith) (omega arith)

-- Two samples of five rows of three elements, on two cores: the fifth row of a sample is left out.
layernorm_elements_example :
    layernorm_fp32_naive whole 3 samples 2 2 5 1 held ((1 * 5 + 3) * 3 + 2)
    ≡ standardized whole 3 1 (λ j. samples ((1 * 5 + 3) * 3 + j)) 2
layernorm_elements_example =
    layernorm_elements whole 3 samples 2 2 5 1 1 3 2 held (omega arith) (omega arith) (omega arith)
      (omega arith)
