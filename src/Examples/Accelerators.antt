-- ===== src/Examples/Accelerators.antt =====
-- The accelerators' control software at concrete values (target/snitch_cluster/sw/snax).
use snax_rebase.Base.{◌+◌, ◌-◌, ◌*◌, ◌/◌, ◌%◌, ◌^◌, ◌≡◌, true, arith, ltb, if◌then◌else◌}
use snax_rebase.Base.Loops.{total}
use snax_rebase.Base.Words.{u32}
use snax_rebase.Alloc.{Allocators, Allocator}
use snax_rebase.Snax.Gemm.{Operands, Strides, base_gemm}
use snax_rebase.Snax.Gemm.Product.{base_gemm_product}
use snax_rebase.Snax.Config.{StreamerGemm, StreamerSimd}

abbrev counting : Operands
counting = record { a = λ i. i; b = λ i. i + 1; subtraction_a = 0; subtraction_b = 1 }

base_gemm_product_example : base_gemm 2 2 2 counting true (λ _. 9) 3 ≡ (
    if ltb 3 (2 * 2)
    then u32 (
        (if true then 0 else 9)
        + total 2 (λ s.
          (counting.a (3 / 2 * 2 + s) + (2 ^ 32 - counting.subtraction_a))
          * (counting.b (3 % 2 * 2 + s) + (2 ^ 32 - counting.subtraction_b))))
    else 9)
base_gemm_product_example =
    base_gemm_product 2 2 2 counting true (λ _. 9) 3 (omega arith) (omega arith) (omega arith)

abbrev dense : Strides
dense = record { innermost = 64; ld = 128; outer = 512 }

abbrev matrix_streams : StreamerGemm
matrix_streams = record {
  temp_loop0 = 2;
  temp_loop1 = 2;
  temp_loop2 = 2;
  temp_stride0_a = 64;
  temp_stride2_a = 128;
  spatial_stride1_a = 8;
  temp_stride0_b = 64;
  temp_stride1_b = 128;
  spatial_stride1_b = 8;
  temp_stride1_c = 256;
  temp_stride2_c = 512;
  spatial_stride1_c = 32;
  delta_local_a = 0;
  delta_local_b = 256;
  delta_local_c = 512;
}

abbrev vector_streams : StreamerSimd
vector_streams = record {
  loop0 = 2;
  loop1 = 2;
  stride0_in = 256;
  stride1_in = 512;
  stride0_out = 64;
  stride1_out = 128;
  delta_local_in = 0;
  delta_local_out = 1024;
}

abbrev empty : Allocator
empty = record { base = 0x1000; size = 0x2000; next = 0x1000 }

abbrev memories : Allocators
memories = record { l1 = empty; l3 = empty }
