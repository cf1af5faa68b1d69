-- ===== src/Alloc.antt =====
-- sw/snRuntime/src/alloc.h: the bump allocators of the L1 and L3 memories, and `snrt_memset`.
pub mod Align
pub mod Chunks
pub mod Fill
use snax_rebase.Base.{ℕ, zero, suc, ◌+◌, ◌-◌, ◌%◌, ◌^◌, Bool, bit_and, List, [], ◌∷◌, if◌then◌else◌}
use snax_rebase.Base.Memory.{Memory, update}
use snax_rebase.Base.Words.{u32, add_u32, sub_u32}
use snax_rebase.Team.{Config, is_dm_core}

-- `~x` on a word
abbrev pub not_u32 : ℕ → ℕ
not_u32 x = 2 ^ 32 - 1 - u32 x

-- `ALIGN_UP` and `ALIGN_DOWN`
unfoldable pub align_up : ℕ → ℕ → ℕ
align_up addr size = bit_and (sub_u32 (add_u32 addr size) 1) (not_u32 (sub_u32 size 1))

unfoldable pub align_down : ℕ → ℕ → ℕ
align_down addr size = bit_and addr (not_u32 (sub_u32 size 1))

abbrev pub min_chunk_size : ℕ
min_chunk_size = 8

-- `snrt_allocator_t`
pub record Allocator : Type 0 where
  pub base : ℕ
  pub size : ℕ
  pub next : ℕ

-- The allocator of the cluster's local storage, and the global one.
pub record Allocators : Type 0 where
  pub l1 : Allocator
  pub l3 : Allocator

unfoldable pub l1_next : Allocators → ℕ
l1_next s = s.l1.next

unfoldable pub l3_next : Allocators → ℕ
l3_next s = s.l3.next

-- Each allocation returns its pointer and the new state.
unfoldable pub l1alloc : ℕ → Allocator → ℕ × Allocator
unfolding align_up
l1alloc size a =
    let rounded = align_up size min_chunk_size in
    (a.next, record a { next = add_u32 a.next rounded })

unfoldable pub l1_update_next : ℕ → Allocator → Allocator
l1_update_next next a = record a { next = u32 next }

unfoldable pub l3alloc : ℕ → Allocator → ℕ × Allocator
l3alloc size a = (a.next, record a { next = add_u32 a.next size })

-- The bounds of the TCDM and the linker's `_edram`.
pub record Layout : Type 0 where
  pub l1_start_addr : ℕ
  pub l1_end_addr : ℕ
  pub edram : ℕ

abbrev init_at : ℕ → ℕ → Allocator
init_at base size = record { base = base; size = size; next = base }

unfoldable pub alloc_init : Config → Layout → ℕ → Allocators → Allocators
unfolding align_up is_dm_core
alloc_init c y hartid s =
    if is_dm_core c hartid
    then record {
      l1 =
          init_at (align_up y.l1_start_addr min_chunk_size) (sub_u32 y.l1_end_addr y.l1_start_addr);
      l3 = init_at (align_up y.edram min_chunk_size) 0;
    }
    else s

-- The `for` loop of `snrt_memset`, by the number of rounds left.
unfoldable pub memset_from : ℕ → ℕ → ℕ → ℕ → Memory → Memory
memset_from zero i ptr value m = m
memset_from (suc n) i ptr value m =
    memset_from n (i + 1) ptr value (update m (add_u32 ptr i) (value % 256))

unfoldable pub memset : ℕ → ℕ → ℕ → Memory → ℕ × Memory
unfolding memset_from
memset ptr value num m = (ptr, memset_from num 0 ptr value m)

-- One allocation after another: the pointer and the size of each, and the last state.
unfoldable pub l1alloc_all : List ℕ → Allocator → List (ℕ × ℕ) × Allocator
unfolding l1alloc
l1alloc_all [] a = ([], a)
l1alloc_all (n ∷ ns) a =
    let (ptr, a') = l1alloc n a in
    let (chunks, last) = l1alloc_all ns a' in ((ptr, n) ∷ chunks, last)
