-- ===== src/Examples/Streams.antt =====
-- The convolution and data reshuffler libraries (target/snitch_cluster/sw/snax) and the streams of
-- sw/snRuntime/src/ssr.h at concrete values.
use snax_rebase.Base.{◌+◌, ◌%◌, ◌^◌, ◌≡◌, [], ◌∷◌, arith, refl, inl, inr}
use snax_rebase.Ssr.{ssr_loop_4d}
use snax_rebase.Ssr.Stream.{advance, loops, nest_4d, offset, pointer_width, ssr_loop_4d_follows}
use snax_rebase.Alloc.{Allocators, Allocator}
use snax_rebase.Snax.Convolution.{ConvStreamer}

abbrev image_streams : ConvStreamer
image_streams = record {
  a_sl_stride0 = 1;
  a_sl_stride1 = 2;
  a_tl_bound0 = 3;
  a_tl_stride0 = 4;
  a_tl_bound1 = 5;
  a_tl_stride1 = 6;
  a_tl_bound2 = 7;
  a_tl_stride2 = 8;
  a_tl_bound3 = 9;
  a_tl_stride3 = 10;
  a_tl_bound4 = 11;
  a_tl_stride4 = 12;
  a_tl_bound5 = 13;
  a_tl_stride5 = 14;
  b_sl_stride0 = 15;
  b_sl_stride1 = 16;
  b_tl_bound0 = 17;
  b_tl_stride0 = 18;
  b_tl_bound1 = 19;
  b_tl_stride1 = 20;
  b_tl_bound2 = 21;
  b_tl_stride2 = 22;
  c_sl_stride0 = 23;
  c_sl_stride1 = 24;
  c_tl_bound0 = 25;
  c_tl_stride0 = 26;
  c_tl_bound1 = 27;
  c_tl_stride1 = 28;
  c_tl_bound2 = 29;
  c_tl_stride2 = 30;
  delta_local_a = 31;
  delta_local_b = 32;
  delta_local_c = 33;
}

abbrev local_store : Allocator
local_store = record { base = 0x1000; size = 0x2000; next = 0x1000 }

abbrev stores : Allocators
stores = record { l1 = local_store; l3 = local_store }

-- Loops of 4, 3, 2 and 2 rounds, where the innermost one has reached its last round
ssr_loop_4d_follows_example :
    let nest = nest_4d 4 3 2 2 8 64 256 1024 in
    let after =
      advance
        (loops 4 0 (ssr_loop_4d 4 3 2 2 8 64 256 1024 (λ _. 0)))
        (3 ∷ 1 ∷ 0 ∷ 0 ∷ [])
        0x1058 in
    (after.1 + offset nest (3 ∷ 1 ∷ 0 ∷ 0 ∷ [])) % 2 ^ pointer_width
    ≡ (0x1058 + offset nest after.0) % 2 ^ pointer_width
ssr_loop_4d_follows_example =
    ssr_loop_4d_follows 4 3 2 2 8 64 256 1024 (λ _. 0) (3 ∷ 1 ∷ 0 ∷ 0 ∷ []) 0x1058
      (
        omega arith,
        omega arith,
        refl,
        inl (refl, (omega arith, omega arith, refl, inr (omega arith))),
      )
