-- ===== src/Alloc/Fill.antt =====
-- What `snrt_memset` writes (sw/snRuntime/src/alloc.h).
use snax_rebase.Base.{
  ℕ, zero, suc, ◌+◌, ◌%◌, ◌^◌, ◌≤◌, ◌≡◌, refl, ltb, leb, ◌&&◌, if◌then◌else◌, arith,
}
use snax_rebase.Base.Memory.{Memory, update}
use snax_rebase.Base.Words.{add_u32}
use snax_rebase.Alloc.{memset_from, memset}

memset_from_lem :
    (n i ptr value : ℕ) (m : Memory) (x : ℕ)
    → ptr + i + n ≤ 2 ^ 32
    → memset_from n i ptr value m x
      ≡ (if leb (ptr + i) x && ltb x (ptr + i + n) then value % 256 else m x)
unfolding memset_from
memset_from_lem zero i ptr value m x h = ground arith
memset_from_lem (suc n) i ptr value m x h =
    ground (arith, memset_from_lem n (i + 1) ptr value (update m (add_u32 ptr i) (value % 256)) x)

-- `snrt_memset` returns its pointer, sets the `num` bytes from there to the low byte of the value,
-- and changes no other byte, if the region does not run over the end of the address space.
pub memset_lem :
    (ptr value num : ℕ) (m : Memory) (x : ℕ)
    → ptr + num ≤ 2 ^ 32
    → ((memset ptr value num m).0 ≡ ptr)
      × ((memset ptr value num m).1 x
          ≡ (if leb ptr x && ltb x (ptr + num) then value % 256 else m x))
unfolding memset
memset_lem ptr value num m x h = (refl, ground (arith, memset_from_lem num 0 ptr value m x))
