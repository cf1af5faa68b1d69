-- ===== src/Alloc/Chunks.antt =====
-- Chunks that `snrt_l1alloc` hands out do not overlap (sw/snRuntime/src/alloc.h).
use snax_rebase.Base.{
  ℕ, ◌+◌, ◌%◌, ◌^◌, ◌≤◌, ◌<◌, ◌≡◌, ◌⊎◌, refl, inl, inr, Bool-cases, true, false, List, [], ◌∷◌,
  arith,
}
use snax_rebase.Alloc.{Allocator, Allocators, Layout, l1alloc, l1alloc_all, alloc_init}
use snax_rebase.Alloc.Align.{align_up_value}
use snax_rebase.Team.{Config, is_dm_core}

-- The next chunk is aligned and does not lie below the base.
pub record IsValid (a : Allocator) : Type 0 where
  pub aligned : a.next % 8 ≡ 0
  pub above : a.base ≤ a.next

-- The bytes that a list of requests takes, each rounded up to 8.
abbrev pub demand : List ℕ → ℕ
demand [] = 0
demand (n ∷ ns) = n + 7 + demand ns

-- The chunks follow one another from `lo` on, each aligned, and end by `hi`.
abbrev pub Ordered : ℕ → List (ℕ × ℕ) → ℕ → Type 0
Ordered lo [] hi = lo ≤ hi
Ordered lo ((ptr, n) ∷ cs) hi = (lo ≤ ptr) × (ptr % 8 ≡ 0) × Ordered (ptr + n) cs hi

l1alloc_step :
    (n : ℕ) (a : Allocator)
    → IsValid a
    → a.next + (n + 7) < 2 ^ 32
    → IsValid (l1alloc n a).1
      × (a.next + n ≤ (l1alloc n a).1.next)
      × ((l1alloc n a).1.next ≤ a.next + (n + 7))
      × ((l1alloc n a).0 ≡ a.next)
unfolding l1alloc
l1alloc_step n a v h = (
  record {
    aligned = omega (arith, align_up_value n, v);
    above = omega (arith, align_up_value n, v);
  },
  omega (arith, align_up_value n),
  omega (arith, align_up_value n),
  refl,
)

Ordered-weaken :
    (lo lo' : ℕ) (cs : List (ℕ × ℕ)) (hi : ℕ) → lo ≤ lo' → Ordered lo' cs hi → Ordered lo cs hi
Ordered-weaken lo lo' [] hi h o = omega arith
Ordered-weaken lo lo' ((p, n) ∷ cs) hi h o = (omega arith, o.1, o.2)

-- A sequence of `snrt_l1alloc` calls whose total demand stays below the end of the address space
-- returns chunks that are aligned, lie one after the other from the old `next` to the new one, and
-- so do not overlap; the allocator stays valid.
pub l1alloc_all-Ordered :
    (ns : List ℕ) (a : Allocator)
    → IsValid a
    → a.next + demand ns < 2 ^ 32
    → IsValid (l1alloc_all ns a).1 × Ordered a.next (l1alloc_all ns a).0 (l1alloc_all ns a).1.next
unfolding l1alloc_all
l1alloc_all-Ordered [] a v h = (v, omega arith)
l1alloc_all-Ordered (n ∷ ns) a v h =
    let step = l1alloc_step n a v (omega arith) in
    let rest = l1alloc_all-Ordered ns (l1alloc n a).1 step.0 (omega (arith, step)) in
    (
      rest.0,
      (
        omega (arith, step),
        omega (arith, step, v),
        Ordered-weaken _ _ (l1alloc_all ns (l1alloc n a).1).0 _ (omega (arith, step)) rest.1,
      ),
    )

-- `snrt_alloc_init` on the data mover core leaves both allocators valid and empty, with bases that
-- are not below the start addresses they were given; on any other core it changes nothing.
pub alloc_init-IsValid :
    (c : Config) (y : Layout) (hartid : ℕ) (s : Allocators)
    → y.l1_start_addr + 7 < 2 ^ 32
    → y.edram + 7 < 2 ^ 32
    → let s' = alloc_init c y hartid s in
      ((is_dm_core c hartid ≡ true)
        × IsValid s'.l1
        × IsValid s'.l3
        × (y.l1_start_addr ≤ s'.l1.next)
        × (y.edram ≤ s'.l3.next))
      ⊎ ((is_dm_core c hartid ≡ false) × (s' ≡ s))
unfolding alloc_init
alloc_init-IsValid c y hartid s h k = elim (Bool-cases (is_dm_core c hartid)) [
  | inl e ↦ rw e (
      inl (
        refl,
        record { aligned = omega (arith, align_up_value y.l1_start_addr h); above = omega arith },
        record { aligned = omega (arith, align_up_value y.edram k); above = omega arith },
        omega (arith, align_up_value y.l1_start_addr h),
        omega (arith, align_up_value y.edram k),
      ))
  | inr e ↦ rw e (inr (refl, refl))
]
