-- ===== src/Snax.antt =====
-- The control software of the accelerators, target/snitch_cluster/sw/snax.
pub mod Gemm
pub mod Simd
pub mod Config
pub mod Convolution
pub mod Reshuffler
