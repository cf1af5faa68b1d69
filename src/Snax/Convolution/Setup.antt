-- ===== src/Snax/Convolution/Setup.antt =====
-- The order of the convolution's configuration calls (snax-streamer-gemm-conv-lib.c).
use snax_rebase.Base.{ℕ, ◌≡◌, refl, true, ◌++◌}
use snax_rebase.Alloc.{Allocators}
use snax_rebase.Snax.Config.{perform}
use snax_rebase.Snax.Config.Setup.{within, commute}
use snax_rebase.Snax.Convolution.{ConvStreamer, set_conv_streamer_csr, set_conv_block_gemm_csr}

conv_streamer :
    (s : ConvStreamer) (alloc : Allocators) → within 960 993 (set_conv_streamer_csr s alloc) ≡ true
unfolding within set_conv_streamer_csr
conv_streamer s alloc = refl

conv_block :
    (l0 l1 l2 subtractions : ℕ)
    → within 993 999 (set_conv_block_gemm_csr l0 l1 l2 subtractions) ≡ true
unfolding within set_conv_block_gemm_csr
conv_block l0 l1 l2 subtractions = refl

-- The streamers of the convolution and the accelerator are configured by disjoint sets of
-- registers: all registers hold the same after both calls in either order.
pub conv_setups_commute :
    (s : ConvStreamer) (alloc : Allocators) (l0 l1 l2 subtractions : ℕ) (csrs : ℕ → ℕ) (r : ℕ)
    → perform
        (set_conv_streamer_csr s alloc ++ set_conv_block_gemm_csr l0 l1 l2 subtractions)
        csrs
        r
      ≡ perform
          (set_conv_block_gemm_csr l0 l1 l2 subtractions ++ set_conv_streamer_csr s alloc)
          csrs
          r
conv_setups_commute s alloc l0 l1 l2 subtractions csrs r =
    commute 960 993 999 (set_conv_streamer_csr s alloc)
      (set_conv_block_gemm_csr l0 l1 l2 subtractions) csrs r (conv_streamer s alloc)
      (conv_block l0 l1 l2 subtractions)
