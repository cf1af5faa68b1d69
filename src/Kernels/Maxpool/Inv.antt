-- ===== src/Kernels/Maxpool/Inv.antt =====
-- What holds of the buffers and the output of `maxpool_layer` in every order of its steps
-- (sw/dnn/maxpool/src/maxpool.h).
pub mod Keep
pub mod Outputs
use snax_rebase.Base.{
  ℕ, zero, suc, ◌+◌, ◌-◌, ◌*◌, ◌%◌, ◌≤◌, ◌<◌, ◌≡◌, ◌≢◌, refl, Bool, true, false, arith,
}
use snax_rebase.Kernels.Float.{Float}
use snax_rebase.Kernels.Maxpool.{
  Layer, Stage, loading, arrived, released, finished, System, rounds, output_half, this_round,
}
use snax_rebase.Kernels.Maxpool.Buffers.{Shape}
use snax_rebase.Kernels.Maxpool.Places.{pooled, Holds}
use snax_rebase.Kernels.Maxpool.Transfers.{out_start}

abbrev pub released_yet : Stage → ℕ
released_yet loading = 0
released_yet arrived = 0
released_yet released = 1
released_yet finished = 1

abbrev pub flag : Bool → ℕ
flag true = 1
flag false = 0

-- How many rounds' outputs are stored
abbrev pub stored : Stage → ℕ → ℕ
stored loading d = d - 1
stored arrived d = d - 1
stored released d = d - 1
stored finished d = d

module _ {A : Type 0} (f : Float A) (l : Layer) (shape : Shape l) (input : ℕ → A) where
  -- A half of the output buffer holds a round's output.
  abbrev pub Made : (ℕ → A) → ℕ → ℕ → Type 0
  Made ofmap b k =
      (c : ℕ) → c < l.tile_ci → ofmap (b * output_half l + c) ≡ pooled f l shape input k c

  -- The output in main memory does.
  abbrev pub Done : (ℕ → A) → ℕ → Type 0
  Done output k =
      (c : ℕ)
      → c < l.tile_ci
      → output (out_start l (this_round l k) + c) ≡ pooled f l shape input k c

  pub record Inv (s : System A) : Type 0 where
    pub dm_buffers : (s.dm_write ≡ s.dm_round % 2) × (s.dm_read ≡ s.dm_round % 2)
    pub core_buffers : (s.core_write ≡ s.core_round % 2) × (s.core_read ≡ s.core_round % 2)
    pub dm_bound : s.dm_round ≤ rounds l
    pub core_bound : s.core_round ≤ rounds l
    pub ended : s.stage ≡ finished → s.dm_round ≡ rounds l
    pub in_step : s.core_round + flag s.running ≡ s.dm_round + released_yet s.stage
    pub remembered : 0 < s.dm_round → s.last ≡ this_round l (s.dm_round - 1)
    pub dm_loaded :
        s.stage ≡ arrived
        → s.dm_round < rounds l
        → Holds f l shape input s.ifmap (s.dm_round % 2) s.dm_round
    pub core_loaded :
        s.running ≡ true
        → s.core_round < rounds l
        → Holds f l shape input s.ifmap (s.core_round % 2) s.core_round
    pub made : (k : ℕ) → k < s.core_round → stored s.stage s.dm_round ≤ k → Made s.ofmap (k % 2) k
    pub done : (k : ℕ) → k < stored s.stage s.dm_round → Done s.output k
