-- ===== src/Examples/Runtime.antt =====
-- Cores, allocators and memory at concrete values (sw/snRuntime/src/team.h, alloc.h).
use snax_rebase.Base.{◌<◌, ◌≢◌, refl, [], ◌∷◌, arith}
use snax_rebase.Base.Memory.{Memory}
use snax_rebase.Team.{Config, is_compute_core, global_compute_core_idx, global_compute_core_num}
use snax_rebase.Team.Index.{IsSane, compute_idx_numbers}
use snax_rebase.Alloc.{Allocator, Allocators, Layout, l1alloc_all}
use snax_rebase.Alloc.Chunks.{IsValid, Ordered, l1alloc_all-Ordered}

-- Two clusters of nine cores, one of which moves data.
abbrev two_clusters : Config
two_clusters = record {
  base_hartid = 16;
  cluster_num = 2;
  cluster_core_num = 9;
  cluster_dm_core_num = 1;
}

abbrev two_clusters_sane : IsSane two_clusters
two_clusters_sane = record {
  some_compute = omega arith;
  fits = omega arith;
  some_cluster = omega arith;
}

compute_idx_numbers_example :
    (global_compute_core_idx two_clusters 17 < global_compute_core_num two_clusters)
    × (global_compute_core_idx two_clusters 17 ≢ global_compute_core_idx two_clusters 25)
unfolding is_compute_core
compute_idx_numbers_example =
    compute_idx_numbers two_clusters two_clusters_sane 17 25 (omega arith, omega arith, omega arith)
      (omega arith, omega arith, omega arith) refl refl (omega arith)

abbrev empty_l1 : Allocator
empty_l1 = record { base = 0x1000; size = 0x2000; next = 0x1000 }

l1alloc_all-Ordered_example :
    IsValid (l1alloc_all (5 ∷ 16 ∷ []) empty_l1).1
    × Ordered 0x1000
        (l1alloc_all (5 ∷ 16 ∷ []) empty_l1).0
        (l1alloc_all (5 ∷ 16 ∷ []) empty_l1).1.next
l1alloc_all-Ordered_example =
    l1alloc_all-Ordered (5 ∷ 16 ∷ []) empty_l1 (record { aligned = refl; above = omega arith })
      (omega arith)

abbrev bounds_of_memory : Layout
bounds_of_memory = record { l1_start_addr = 0x1003; l1_end_addr = 0x3000; edram = 0x80001 }

abbrev no_memory : Allocators
no_memory = record { l1 = empty_l1; l3 = empty_l1 }

abbrev zeros : Memory
zeros _ = 0
