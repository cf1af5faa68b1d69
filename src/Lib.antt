-- ===== src/Lib.antt =====
-- The bare-metal C software of the Snitch/SNAX cluster: the runtime in sw/snRuntime, the control
-- libraries of the accelerators in target/snitch_cluster/sw/snax, and kernels in sw/blas, sw/dnn and
-- sw/apps.
--
-- The cores of a cluster share a local memory (TCDM); one core per cluster moves data with an engine
-- that it starts by custom instructions. The parts and their files:
--
-- - Team (sw/snRuntime/src/team.h): core and cluster numbers as functions of the hart id. `hartid` is
--   an argument, the numbers of the generated configuration header are the record `Config`.
-- - Alloc (sw/snRuntime/src/alloc.h): the allocators as a state that each call returns anew, and
--   `snrt_memset` on memory as a function from addresses to bytes.
-- - Dma (sw/snRuntime/src/dma.h): what the inline assembly issues, the instruction words and the
--   registers they read. Dma/Engine states what docs/rm/custom_instructions.md says of them; the
--   engine's way to copy is an argument where a theorem needs it. A wait runs over the list of the
--   status words that the engine returns, and gives `none` if that list ends first.
-- - Start (sw/snRuntime/src/start.c, and the thread pointers of start.S): what the data mover core
--   issues to initialise thread-local, zero-initialised and cluster-local storage, run by an engine
--   that is an argument; Start/Race interleaves the engine and a core that stores `_cls_ptr`. The linker's
--   symbols are the record `Symbols`. Start/Exit has the exit code.
-- - DataMover (sw/snRuntime/src/dm.h): the task queue and the status requests of the data mover core,
--   round by round; DataMover/Race interleaves the steps of several callers.
-- - Omp (sw/snRuntime/src/omp/kmp.c): the static loop schedules, and how the arguments of a parallel
--   region reach its threads. Omp/EventUnit (sw/snRuntime/src/omp/eu.h, and its callers in omp.h and
--   omp.c): the event unit that dispatches regions, as a step relation over the accesses of the main
--   thread and of any number of workers, in the variant that wakes them by cluster interrupts.
-- - Sync (sw/snRuntime/src/sync.h): the mutexes and the software barrier as step relations over the
--   accesses of any number of threads, the mutexes around the updates of an interrupt register
--   (sw/snRuntime/src/global_interrupts.h), and the reduction over clusters, as a step relation at one
--   index of the buffers; `ceil(log2(n))` of the C library is an argument.
-- - Snax (target/snitch_cluster/sw/snax): the packed configuration words, the register writes as lists
--   in program order, the reference product and the scaling reference, and the loading of matrices.
-- - Ssr (sw/snRuntime/src/ssr.h): the stream configuration registers; Ssr/Stream has the loop counters
--   of the address generator in hw/snitch_ssr.
-- - Kernels (sw/blas, sw/apps, sw/dnn): kernels in plain C. Floating-point operations are an interface
--   without laws (Kernels/Float); an array is a function
--   from subscripts, a pointer into it a subscript. Kernels/Gemm has the naive matrix product
--   (gemm_fp64_naive and its copy for `float`) and its distribution over cores, Kernels/Gemm/Tiled the tiles that
--   `gemm` deals out to the clusters (by elements: Dma/Tiles says which bytes the transfers move),
--   Kernels/Random the
--   generator of sw/apps/prng and the estimate of pi, Kernels/Vectors axpy and atax, Kernels/Statistics
--   covariance and correlation, Kernels/Normalize softmax and layernorm, Kernels/Concat the
--   concatenation, Kernels/Fused its composition with a product,
--   Kernels/Gelu the activation layer, Kernels/Maxpool the max-pooling layer with its double buffers, as a step relation of the
--   data mover core and the compute cores, Kernels/Mnist the forward pass, gradients and update of sw/apps/mnist.
--   Kernels/Shares and Kernels/Rows say how rounds and rows are dealt out to the cores;
--   between barriers the cores run one after the other, since they write different elements.
-- - Base: numbers, words, bits, lists, memory, families of threads, loops.
-- - Examples: each theorem with premises, at a concrete input.
--
-- The allocators' state is read by the accelerators' set-up (`snrt_l1_next`), the team's numbers by the
-- initialisation of the allocators, and the transfers by the tile helpers, `snrt_dma_memset` and the
-- loading of matrices and by the concatenation. The event unit runs the regions that the argument
-- passing of Omp sets up; the start-up code uses the allocator's alignment and the transfers; the kernels share the cores of Team. Words have 32 bits, with the wrap-around written out (Base/Words); pointers,
-- `size_t` and `int` are such words, a negative `int` its bit pattern. Loops are structural recursion on
-- their counts; no definition takes fuel.
--
-- Not modelled: the event unit with the global interrupt controller, `omp_init`, the
-- other interrupt registers, performance counters, the kernels whose inner loops are
-- inline assembly, the other applications, and hardware. The printing and profiling macros are left
-- out, since they are empty by default.
pub mod Base
pub mod Team
pub mod Alloc
pub mod Dma
pub mod Omp
pub mod Sync
pub mod DataMover
pub mod Snax
pub mod Ssr
pub mod Start
pub mod Kernels
mod Examples
