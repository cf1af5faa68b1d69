-- ===== src/Kernels/Concat.antt =====
-- `concat_layer` (sw/dnn/concat/src/concat.h): each cluster copies one input next to the others.
pub mod Places
use snax_rebase.Base.{ℕ, ◌+◌, ◌*◌, List, [], ◌∷◌, Option, none, some, ltb, if◌then◌else◌}
use snax_rebase.Base.Loops.{loop}
use snax_rebase.Base.Memory.{Memory}
use snax_rebase.Base.Words.{add_u32, mul_u32}
use snax_rebase.Dma.{Issue, start_2d}
use snax_rebase.Dma.Engine.{Transfer, Setup, started, run_all}

-- `concat_layer_t` without `dtype`, which the function does not read
pub record ConcatLayer : Type 0 where
  pub num_inputs : ℕ
  pub height : ℕ  -- `input_shape[0]`
  pub width : ℕ  -- `input_shape[1]`
  pub inputs : ℕ → ℕ
  pub output : ℕ

-- `row_size` and `concatenated_row_size`
unfoldable pub row_size : ConcatLayer → ℕ
row_size l = mul_u32 l.width 8

unfoldable pub concatenated_row_size : ConcatLayer → ℕ
unfolding row_size
concatenated_row_size l = mul_u32 (row_size l) l.num_inputs

-- The value that every core of cluster `idx` returns, and what its data mover core issues. `tid` is
-- the identifier that the engine returns.
unfoldable pub concat_layer : ConcatLayer → ℕ → ℕ → ℕ → ℕ × Option Issue
unfolding row_size concatenated_row_size start_2d
concat_layer l clusters idx tid = if ltb clusters l.num_inputs then (1, none) else (
  0,
  (if ltb idx l.num_inputs
      then (start_2d tid (add_u32 l.output (mul_u32 idx (row_size l))) (l.inputs idx) (row_size l)
          (concatenated_row_size l) (row_size l) l.height).0
      else none),
)

-- The memory after all clusters have reached the barrier; `f` is what earlier transfers have left in
-- the engines.
unfoldable pub concat_all :
    (Transfer → Memory → Memory) → Setup → ConcatLayer → ℕ → ℕ → Memory → Memory
unfolding concat_layer run_all
concat_all run f l clusters tid m =
    loop clusters (λ idx. run_all run (started f (concat_layer l clusters idx tid).1)) m
