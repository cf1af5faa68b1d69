-- ===== src/Snax/Reshuffler/Layout.antt =====
-- The order in which the data reshuffler's test data is read (snax-data-reshuffler-lib.c).
use snax_rebase.Base.{ℕ, ◌+◌, ◌*◌, ◌≡◌, ap, arith, List, [], ◌∷◌, map}
use snax_rebase.Base.Loops.{for_each}
use snax_rebase.Base.Words.{u32}
use snax_rebase.Snax.Gemm.{Copy}
use snax_rebase.Snax.Gemm.Layout.{source, source-for_three}
use snax_rebase.Snax.Reshuffler.{load_data_reshuffler_test_data}

-- A row of eight bytes on its own
abbrev pub row : ℕ → ℕ → List Copy
row start x = record { dst = 0; src = u32 (start + x * 8); size = 8 } ∷ []

index : (l2 m i j k : ℕ) → l2 + i * m * 64 + j * 64 + k * 8 ≡ l2 + ((i * m + j) * 8 + k) * 8
index l2 m i j k = grind arith

-- `load_data_reshuffler_test_data` reads the data from its start on without a gap, eight bytes
-- after the other, each byte once.
pub load_test_data_reads :
    (temp_loop0 temp_loop1 stride0 stride1 spatial_stride1 local l2 : ℕ)
    → map source (
        load_data_reshuffler_test_data temp_loop0 temp_loop1 stride0 stride1 spatial_stride1 local
          l2)
      ≡ for_each (temp_loop1 * temp_loop0 * 8) (row l2)
unfolding load_data_reshuffler_test_data source
load_test_data_reads temp_loop0 temp_loop1 stride0 stride1 spatial_stride1 local l2 =
    source-for_three temp_loop1 temp_loop0 8 (row l2) _ (λ i j k.
      ap (λ x. record { dst = 0; src = u32 x; size = 8 } ∷ []) (index l2 temp_loop0 i j k))
