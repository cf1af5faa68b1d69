-- ===== src/Omp.antt =====
-- sw/snRuntime/src/omp: the OpenMP runtime. `kmp.c` has the calls that the compiler emits.
pub mod Schedule
pub mod Microtask
pub mod EventUnit
