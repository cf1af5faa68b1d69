-- ===== src/Kernels.antt =====
-- The kernels that are plain C code: sw/blas, sw/apps and sw/dnn.
pub mod Concat
pub mod Maxpool
pub mod Mnist
pub mod Float
pub mod Fused
pub mod Gelu
pub mod Gemm
pub mod Normalize
pub mod Random
pub mod Rows
pub mod Shares
pub mod Statistics
pub mod Vectors
