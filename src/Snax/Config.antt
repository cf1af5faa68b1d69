-- ===== src/Snax/Config.antt =====
-- The configuration registers that the libraries under target/snitch_cluster/sw/snax write: the
-- words packed by gemm and streamer-simd, and the writes, in order, of gemm, streamer-simd
-- and streamer-gemm. Arguments of type `int` are their 32-bit patterns.
pub mod Packing
pub mod Setup
use snax_rebase.Base.{ℕ, ◌+◌, ◌*◌, ◌%◌, ◌^◌, Bool, if◌then◌else◌, List, [], ◌∷◌, ◌++◌, bit_or}
use snax_rebase.Base.Memory.{update}
use snax_rebase.Base.Words.{u32, add_u32}
use snax_rebase.Alloc.{Allocators, l1_next}

-- `x << k` of a 32-bit word
abbrev pub shl : ℕ → ℕ → ℕ
shl x k = u32 (x * 2 ^ k)

-- The conversion to `uint8_t`
abbrev pub u8 : ℕ → ℕ
u8 n = n % 2 ^ 8

unfoldable pub gen_size_config : ℕ → ℕ → ℕ → ℕ → ℕ
gen_size_config batch m k n = bit_or (bit_or (bit_or (shl batch 24) (shl m 16)) (shl k 8)) n

unfoldable pub gen_subtraction_config : ℕ → ℕ → ℕ
gen_subtraction_config subtraction_a subtraction_b =
    bit_or (shl (u8 subtraction_b) 8) (u8 subtraction_a)

unfoldable pub gen_csr0_config : ℕ → ℕ → ℕ → ℕ → ℕ
gen_csr0_config input_zp output_zp shift max_int =
    bit_or (bit_or (bit_or (shl max_int 24) (shl shift 16)) (shl output_zp 8)) input_zp

unfoldable pub gen_csr1_config : ℕ → Bool → ℕ
gen_csr1_config min_int double_round = bit_or (shl (if double_round then 1 else 0) 8) (u8 min_int)

-- `write_csr`: the register and the word
pub record Write : Type 0 where
  pub csr : ℕ
  pub value : ℕ

abbrev pub write_csr : ℕ → ℕ → Write
write_csr csr value = record { csr = csr; value = value }

-- The registers after a sequence of writes
unfoldable pub perform : List Write → (ℕ → ℕ) → ℕ → ℕ
perform [] csrs = csrs
perform (w ∷ ws) csrs = perform ws (update csrs w.csr w.value)

-- The arguments of gemm's `set_batch_gemm`
pub record BatchGemm : Type 0 where
  pub size_setting : ℕ
  pub local_a : ℕ
  pub local_b : ℕ
  pub subtractions : ℕ
  pub local_c : ℕ
  pub stride_innermost_a : ℕ
  pub stride_innermost_b : ℕ
  pub stride_innermost_c : ℕ
  pub ld_a : ℕ
  pub ld_b : ℕ
  pub ld_c : ℕ
  pub stride_a : ℕ
  pub stride_b : ℕ
  pub stride_c : ℕ

unfoldable pub set_batch_gemm : BatchGemm → List Write
set_batch_gemm g =
    write_csr 0x3c0 g.size_setting
    ∷ write_csr 0x3c1 g.local_a
    ∷ write_csr 0x3c2 g.local_b
    ∷ write_csr 0x3c3 g.local_c
    ∷ write_csr 0x3c4 g.stride_innermost_a
    ∷ write_csr 0x3c5 g.stride_innermost_b
    ∷ write_csr 0x3c6 g.stride_innermost_c
    ∷ write_csr 0x3c7 g.ld_a
    ∷ write_csr 0x3c8 g.ld_b
    ∷ write_csr 0x3c9 g.ld_c
    ∷ write_csr 0x3ca g.stride_a
    ∷ write_csr 0x3cb g.stride_b
    ∷ write_csr 0x3cc g.stride_c
    ∷ write_csr 0x3ce g.subtractions
    ∷ []

unfoldable pub start_batch_gemm : List Write
start_batch_gemm = write_csr 0x3cf 1 ∷ []

unfoldable pub wait_batch_gemm : List Write
wait_batch_gemm = write_csr 0x7c3 1 ∷ write_csr 0x7c4 0 ∷ []

-- The arguments of streamer-gemm's `set_streamer_csr`
pub record StreamerGemm : Type 0 where
  pub temp_loop0 : ℕ
  pub temp_loop1 : ℕ
  pub temp_loop2 : ℕ
  pub temp_stride0_a : ℕ
  pub temp_stride2_a : ℕ
  pub spatial_stride1_a : ℕ
  pub temp_stride0_b : ℕ
  pub temp_stride1_b : ℕ
  pub spatial_stride1_b : ℕ
  pub temp_stride1_c : ℕ
  pub temp_stride2_c : ℕ
  pub spatial_stride1_c : ℕ
  pub delta_local_a : ℕ
  pub delta_local_b : ℕ
  pub delta_local_c : ℕ

unfoldable pub set_streamer_csr : StreamerGemm → Allocators → List Write
set_streamer_csr s alloc =
    write_csr 960 s.temp_loop0
    ∷ write_csr 961 s.temp_loop1
    ∷ write_csr 962 s.temp_loop2
    ∷ write_csr 963 s.temp_stride0_a
    ∷ write_csr 964 0
    ∷ write_csr 965 s.temp_stride2_a
    ∷ write_csr 966 s.temp_stride0_b
    ∷ write_csr 967 s.temp_stride1_b
    ∷ write_csr 968 0
    ∷ write_csr 969 0
    ∷ write_csr 970 s.temp_stride1_c
    ∷ write_csr 971 s.temp_stride2_c
    ∷ write_csr 972 1
    ∷ write_csr 973 s.spatial_stride1_a
    ∷ write_csr 974 1
    ∷ write_csr 975 s.spatial_stride1_b
    ∷ write_csr 976 4
    ∷ write_csr 977 s.spatial_stride1_c
    ∷ write_csr 978 (add_u32 s.delta_local_a (l1_next alloc))
    ∷ write_csr 979 (add_u32 s.delta_local_b (l1_next alloc))
    ∷ write_csr 980 (add_u32 s.delta_local_c (l1_next alloc))
    ∷ []

unfoldable pub set_streamer_start : List Write
set_streamer_start = write_csr 981 1 ∷ []

unfoldable pub set_block_gemm_csr : ℕ → ℕ → ℕ → ℕ → List Write
set_block_gemm_csr temp_loop0 temp_loop1 temp_loop2 subtractions =
    write_csr 983 temp_loop0
    ∷ write_csr 984 temp_loop1
    ∷ write_csr 985 temp_loop2
    ∷ write_csr 986 subtractions
    ∷ []

unfoldable pub set_block_gemm_start : List Write
set_block_gemm_start = write_csr 987 1 ∷ []

unfoldable pub wait_streamer_gemm : List Write
wait_streamer_gemm = write_csr 987 0 ∷ write_csr 987 0 ∷ write_csr 981 0 ∷ []

-- The arguments of streamer-simd's `set_streamer_simd_csr`
pub record StreamerSimd : Type 0 where
  pub loop0 : ℕ
  pub loop1 : ℕ
  pub stride0_in : ℕ
  pub stride1_in : ℕ
  pub stride0_out : ℕ
  pub stride1_out : ℕ
  pub delta_local_in : ℕ
  pub delta_local_out : ℕ

unfoldable pub set_streamer_simd_csr : StreamerSimd → Allocators → List Write
set_streamer_simd_csr s alloc =
    write_csr (960 + 0) s.loop0
    ∷ write_csr (960 + 1) s.loop1
    ∷ write_csr (960 + 2) s.stride0_in
    ∷ write_csr (960 + 3) s.stride1_in
    ∷ write_csr (960 + 4) s.stride0_out
    ∷ write_csr (960 + 5) s.stride1_out
    ∷ write_csr (960 + 6) 4
    ∷ write_csr (960 + 7) 32
    ∷ write_csr (960 + 8) 1
    ∷ write_csr (960 + 9) 8
    ∷ write_csr (960 + 10) (add_u32 s.delta_local_in (l1_next alloc))
    ∷ write_csr (960 + 11) (add_u32 s.delta_local_out (l1_next alloc))
    ∷ []

unfoldable pub start_streamer_simd : List Write
start_streamer_simd = write_csr (960 + 12) 1 ∷ []

unfoldable pub set_simd_csr : ℕ → ℕ → ℕ → ℕ → List Write
set_simd_csr csr0 csr1 csr2 temporal_loop_bound =
    write_csr (960 + 14) csr0
    ∷ write_csr (960 + 15) csr1
    ∷ write_csr (960 + 16) csr2
    ∷ write_csr (960 + 17) temporal_loop_bound
    ∷ []

unfoldable pub start_simd : List Write
start_simd = write_csr (960 + 18) 1 ∷ []

unfoldable pub wait_streamer_simd : List Write
wait_streamer_simd = write_csr (960 + 18) 0 ∷ write_csr (960 + 12) 0 ∷ []
