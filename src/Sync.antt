-- ===== src/Sync.antt =====
-- sw/snRuntime/src/sync.h: locks, barriers and the reduction over the clusters.
pub mod Barrier
pub mod Mutex
pub mod Reduction
