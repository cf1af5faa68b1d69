-- ===== src/Snax/Convolution.antt =====
-- target/snitch_cluster/sw/snax/streamer-gemm-conv/src/snax-streamer-gemm-conv-lib.c: the registers
-- of the convolution's streamers and of the accelerator, and the check of the result.
pub mod Setup
pub mod Check
use snax_rebase.Base.{ℕ, ◌+◌, ◌*◌, ◌%◌, ◌^◌, if◌then◌else◌, List, [], ◌∷◌, ◌==◌, not, leb}
use snax_rebase.Base.Loops.{loop}
use snax_rebase.Base.Words.{u32, add_u32, mul_u32, is_neg}
use snax_rebase.Alloc.{Allocators, l1_next}
use snax_rebase.Snax.Config.{Write, write_csr}

-- The arguments of `set_conv_streamer_csr`: for the data movers `a`, `b` and `c` the spatial
-- strides, and the bounds and strides of the temporal loops.
pub record ConvStreamer : Type 0 where
  pub a_sl_stride0 : ℕ
  pub a_sl_stride1 : ℕ
  pub a_tl_bound0 : ℕ
  pub a_tl_stride0 : ℕ
  pub a_tl_bound1 : ℕ
  pub a_tl_stride1 : ℕ
  pub a_tl_bound2 : ℕ
  pub a_tl_stride2 : ℕ
  pub a_tl_bound3 : ℕ
  pub a_tl_stride3 : ℕ
  pub a_tl_bound4 : ℕ
  pub a_tl_stride4 : ℕ
  pub a_tl_bound5 : ℕ
  pub a_tl_stride5 : ℕ
  pub b_sl_stride0 : ℕ
  pub b_sl_stride1 : ℕ
  pub b_tl_bound0 : ℕ
  pub b_tl_stride0 : ℕ
  pub b_tl_bound1 : ℕ
  pub b_tl_stride1 : ℕ
  pub b_tl_bound2 : ℕ
  pub b_tl_stride2 : ℕ
  pub c_sl_stride0 : ℕ
  pub c_sl_stride1 : ℕ
  pub c_tl_bound0 : ℕ
  pub c_tl_stride0 : ℕ
  pub c_tl_bound1 : ℕ
  pub c_tl_stride1 : ℕ
  pub c_tl_bound2 : ℕ
  pub c_tl_stride2 : ℕ
  pub delta_local_a : ℕ
  pub delta_local_b : ℕ
  pub delta_local_c : ℕ

unfoldable pub set_conv_streamer_csr : ConvStreamer → Allocators → List Write
set_conv_streamer_csr s alloc =
    write_csr 960 s.a_tl_bound0
    ∷ write_csr 961 s.a_tl_bound1
    ∷ write_csr 962 s.a_tl_bound2
    ∷ write_csr 963 s.a_tl_bound3
    ∷ write_csr 964 s.a_tl_bound4
    ∷ write_csr 965 s.a_tl_bound5
    ∷ write_csr 966 s.b_tl_bound0
    ∷ write_csr 967 s.b_tl_bound1
    ∷ write_csr 968 s.b_tl_bound2
    ∷ write_csr 969 s.c_tl_bound0
    ∷ write_csr 970 s.c_tl_bound1
    ∷ write_csr 971 s.c_tl_bound2
    ∷ write_csr 972 s.a_tl_stride0
    ∷ write_csr 973 s.a_tl_stride1
    ∷ write_csr 974 s.a_tl_stride2
    ∷ write_csr 975 s.a_tl_stride3
    ∷ write_csr 976 s.a_tl_stride4
    ∷ write_csr 977 s.a_tl_stride5
    ∷ write_csr 978 s.b_tl_stride0
    ∷ write_csr 979 s.b_tl_stride1
    ∷ write_csr 980 s.b_tl_stride2
    ∷ write_csr 981 s.c_tl_stride0
    ∷ write_csr 982 s.c_tl_stride1
    ∷ write_csr 983 s.c_tl_stride2
    ∷ write_csr 984 s.a_sl_stride0
    ∷ write_csr 985 s.a_sl_stride1
    ∷ write_csr 986 s.b_sl_stride0
    ∷ write_csr 987 s.b_sl_stride1
    ∷ write_csr 988 s.c_sl_stride0
    ∷ write_csr 989 s.c_sl_stride1
    ∷ write_csr 990 (add_u32 s.delta_local_a (l1_next alloc))
    ∷ write_csr 991 (add_u32 s.delta_local_b (l1_next alloc))
    ∷ write_csr 992 (add_u32 s.delta_local_c (l1_next alloc))
    ∷ []

unfoldable pub set_conv_streamer_start : List Write
set_conv_streamer_start = write_csr 993 1 ∷ []

unfoldable pub set_conv_block_gemm_csr : ℕ → ℕ → ℕ → ℕ → List Write
set_conv_block_gemm_csr temp_loop0 temp_loop1 temp_loop2 subtractions =
    write_csr 995 temp_loop0
    ∷ write_csr 996 temp_loop1
    ∷ write_csr 997 temp_loop2
    ∷ write_csr 998 subtractions
    ∷ []

unfoldable pub set_conv_block_gemm_start : List Write
set_conv_block_gemm_start = write_csr 999 1 ∷ []

unfoldable pub wait_conv_streamer_gemm : List Write
wait_conv_streamer_gemm = write_csr 999 0 ∷ write_csr 999 0 ∷ write_csr 993 0 ∷ []

-- `Batch * M * N * 8 * 8` rounds, as an `int`: none if it is negative.
unfoldable pub conv_rounds : ℕ → ℕ → ℕ → ℕ
conv_rounds batch m n =
    let count = mul_u32 (mul_u32 (mul_u32 (mul_u32 batch m) n) 8) 8 in
    if is_neg count then 0 else count

unfoldable pub check_conv_result : (ℕ → ℕ) → (ℕ → ℕ) → ℕ → ℕ → ℕ → ℕ
check_conv_result output golden batch m n =
    loop (conv_rounds batch m n)
      (λ i err. if not (output i == golden i) then add_u32 err 1 else err) 0
