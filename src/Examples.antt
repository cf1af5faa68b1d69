-- ===== src/Examples.antt =====
-- The theorems at concrete inputs.
mod Runtime
mod Start
mod Transfers
mod Parallel
mod Reductions
mod Mover
mod Accelerators
mod Streams
mod Events
mod Locks
mod Simd
mod Kernels
mod Layers
