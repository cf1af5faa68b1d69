-- ===== src/Snax/Reshuffler.antt =====
-- target/snitch_cluster/sw/snax/data-reshuffler/src/snax-data-reshuffler-lib.c: the registers, and
-- the loading of the test data.
pub mod Layout
use snax_rebase.Base.{ℕ, ◌+◌, ◌*◌, ◌%◌, ◌^◌, Bool, if◌then◌else◌, List, [], ◌∷◌}
use snax_rebase.Base.Loops.{for_each}
use snax_rebase.Base.Words.{u32, add_u32}
use snax_rebase.Alloc.{Allocators, l1_next}
use snax_rebase.Snax.Config.{Write, write_csr}
use snax_rebase.Snax.Gemm.{Copy}

-- The arguments of `set_data_reshuffler_csr`
pub record Reshuffle : Type 0 where
  pub temp_loop0 : ℕ
  pub temp_loop1 : ℕ
  pub temp_stride0_in : ℕ
  pub temp_stride1_in : ℕ
  pub spatial_stride1_in : ℕ
  pub temp_stride0_out : ℕ
  pub temp_stride1_out : ℕ
  pub spatial_stride1_out : ℕ
  pub delta_local_in : ℕ
  pub delta_local_out : ℕ
  pub transpose : Bool

unfoldable pub set_data_reshuffler_csr : Reshuffle → Allocators → List Write
set_data_reshuffler_csr s alloc =
    write_csr (960 + 0) s.temp_loop0
    ∷ write_csr (960 + 1) s.temp_loop1
    ∷ write_csr (960 + 2) s.temp_stride0_in
    ∷ write_csr (960 + 3) s.temp_stride1_in
    ∷ write_csr (960 + 4) s.temp_stride0_out
    ∷ write_csr (960 + 5) s.temp_stride1_out
    ∷ write_csr (960 + 6) s.spatial_stride1_in
    ∷ write_csr (960 + 7) s.spatial_stride1_out
    ∷ write_csr (960 + 8) (add_u32 s.delta_local_in (l1_next alloc))
    ∷ write_csr (960 + 9) (add_u32 s.delta_local_out (l1_next alloc))
    ∷ write_csr (960 + 12) (if s.transpose then 1 else 0)
    ∷ []

unfoldable pub start_streamer : List Write
start_streamer = write_csr (960 + 10) 1 ∷ []

unfoldable pub wait_streamer : List Write
wait_streamer = write_csr (960 + 10) 0 ∷ []

unfoldable pub start_data_reshuffler : List Write
start_data_reshuffler = write_csr (960 + 13) 1 ∷ []

unfoldable pub wait_data_reshuffler : List Write
wait_data_reshuffler = write_csr (960 + 13) 0 ∷ []

-- snax-data-reshuffler-lib.h
abbrev pub spatial_len_0 : ℕ
spatial_len_0 = 8

abbrev pub spatial_len_1 : ℕ
spatial_len_1 = 8

abbrev pub spatial_len : ℕ
spatial_len = spatial_len_0 * spatial_len_1

-- The bounds are `int`s that are not negative.
unfoldable pub load_data_reshuffler_test_data : ℕ → ℕ → ℕ → ℕ → ℕ → ℕ → ℕ → List Copy
load_data_reshuffler_test_data temp_loop0 temp_loop1 stride0 stride1 spatial_stride1 local l2 =
    for_each temp_loop1 (λ loop1. for_each temp_loop0 (λ loop0. for_each spatial_len_1 (λ i.
      record {
        dst = u32 (local + loop1 * stride1 + loop0 * stride0 + i * spatial_stride1);
        src = u32 (l2 + loop1 * temp_loop0 * spatial_len + loop0 * spatial_len + i * spatial_len_1);
        size = spatial_len_0;
      }
      ∷ [])))
