-- ===== src/Start.antt =====
-- sw/snRuntime/src/start.c, and the thread pointers that sw/snRuntime/src/start.S leaves it: the
-- initialisation of thread-local, zero-initialised and cluster-local storage, and the exit code.
pub mod Copies
pub mod Tls
pub mod Stacks
pub mod Race
pub mod Cls
pub mod Exit
use snax_rebase.Base.{
  ℕ, zero, suc, ◌+◌, ◌-◌, ◌*◌, ◌/◌, ◌^◌, Bool, bit_or, List, [], ◌∷◌, ◌++◌, Option, none, some,
  ◌&&◌, ◌==◌, if◌then◌else◌,
}
use snax_rebase.Base.Loops.{for_each}
use snax_rebase.Base.Words.{u32, add_u32, sub_u32, mul_u32}
use snax_rebase.Alloc.{align_down}
use snax_rebase.Dma.{Issue, start_1d, start_1d_wideptr}
use snax_rebase.Team.{Config, cluster_idx, cluster_core_idx, global_core_idx, is_dm_core}

-- The linker's symbols and the constants of the generated header.
pub record Symbols : Type 0 where
  pub tdata_start : ℕ
  pub tdata_end : ℕ
  pub tbss_start : ℕ
  pub tbss_end : ℕ
  pub bss_start : ℕ
  pub bss_end : ℕ
  pub cdata_start : ℕ
  pub cdata_end : ℕ
  pub cbss_start : ℕ
  pub cbss_end : ℕ
  pub zero_memory : ℕ
  pub tcdm_start_addr : ℕ
  pub tcdm_size : ℕ
  pub cluster_offset : ℕ
  pub log2_stack_size : ℕ

-- `(1 << SNRT_LOG2_STACK_SIZE) + 8`
unfoldable pub tls_offset : Symbols → ℕ
tls_offset k = add_u32 (2 ^ k.log2_stack_size) 8

module _ (k : Symbols) (c : Config) where
  unfoldable pub cls_base_addr : ℕ → ℕ
  unfolding cluster_idx
  cls_base_addr hartid =
      let cdata_size = sub_u32 k.cdata_end k.cdata_start in
      let cbss_size = sub_u32 k.cbss_end k.cbss_start in
      let l1_end_addr =
        add_u32 (add_u32 k.tcdm_start_addr (mul_u32 (cluster_idx c hartid) k.cluster_offset))
          k.tcdm_size in
      sub_u32 (sub_u32 l1_end_addr cdata_size) cbss_size

  -- `tp` of a core: below the cluster-local storage and the eight bytes of the return value, at the
  -- top of the core's stack.
  unfoldable pub thread_ptr : ℕ → ℕ
  unfolding cls_base_addr cluster_core_idx align_down
  thread_ptr hartid =
      let core = cluster_core_idx c hartid in
      let top = sub_u32 (cls_base_addr hartid) 8 in
      let sp = sub_u32 (sub_u32 top (mul_u32 core (2 ^ k.log2_stack_size))) (mul_u32 core 8) in
      let below = sub_u32 sp (sub_u32 k.tdata_end k.tdata_start) in
      align_down (sub_u32 below (sub_u32 k.tbss_end k.tbss_start)) 8

  -- What the function issues in order, on a core whose thread pointer is `tls_ptr`; `tid` is the
  -- identifier that the engine returns, which the function does not read.
  unfoldable pub init_tls : ℕ → ℕ → ℕ → List (Option Issue)
  unfolding tls_offset start_1d is_dm_core
  init_tls tid hartid tls_ptr =
      let size = sub_u32 k.tdata_end k.tdata_start in
      let bss_size = sub_u32 k.tbss_end k.tbss_start in
      if is_dm_core c hartid
      then (start_1d tid tls_ptr k.tdata_start size).0
          ∷ for_each (c.cluster_core_num - 1) (λ i.
            (start_1d tid (add_u32 tls_ptr (mul_u32 (i + 1) (tls_offset k))) tls_ptr size).0 ∷ [])
        ++ for_each c.cluster_core_num (λ i.
          (start_1d tid (add_u32 (add_u32 tls_ptr size) (mul_u32 i (tls_offset k))) k.zero_memory
            bss_size).0
          ∷ [])
      else []

  unfoldable pub init_bss : ℕ → ℕ → List (Option Issue)
  unfolding cluster_idx is_dm_core start_1d_wideptr
  init_bss tid hartid =
      if cluster_idx c hartid == 0 && is_dm_core c hartid
      then (start_1d_wideptr tid k.bss_start k.zero_memory (sub_u32 k.bss_end k.bss_start)).0 ∷ []
      else []

  -- The value of `_cls_ptr`, and what the function issues.
  unfoldable pub init_cls : ℕ → ℕ → ℕ × List (Option Issue)
  unfolding cls_base_addr is_dm_core start_1d
  init_cls tid hartid =
      let size = sub_u32 k.cdata_end k.cdata_start in
      let ptr = cls_base_addr hartid in
      (
        ptr,
        (if is_dm_core c hartid
            then (start_1d tid ptr k.cdata_start size).0
              ∷ (start_1d tid (add_u32 ptr size) k.zero_memory (sub_u32 k.cbss_end k.cbss_start)).0
              ∷ []
            else []),
      )

-- `snrt_global_all_to_all_reduction`: the cores add their values to the shared word, in the order of
-- the list, and read it after the barrier.
unfoldable pub all_to_all_reduction : ℕ → List ℕ → ℕ
all_to_all_reduction shared [] = shared
all_to_all_reduction shared (value ∷ rest) = all_to_all_reduction (add_u32 shared value) rest

-- `snrt_exit_default` after the reduction: the word that a core writes to the exit code's
-- destination, if any.
unfoldable pub exit_default : Config → ℕ → ℕ → Option ℕ
unfolding global_core_idx
exit_default c hartid exit_code =
    if global_core_idx c hartid == 0 then some (bit_or (mul_u32 exit_code 2) 1) else none
