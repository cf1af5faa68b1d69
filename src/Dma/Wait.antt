-- ===== src/Dma/Wait.antt =====
-- When the polling loops of sw/snRuntime/src/dma.h end.
use snax_rebase.Base.{
  ℕ, ◌+◌, ◌-◌, ◌^◌, ◌<◌, ◌≡◌, refl, ◌++◌, List, [], ◌∷◌, none, some, true, false, arith,
}
use snax_rebase.Base.Words.{u32}
use snax_rebase.Dma.{wait, wait_done}

-- The engine has completed `k` transfers more than the one waited for; ids wrap at 2^32.
pub wait_done_after :
    (tid k : ℕ) → tid < 2 ^ 32 → 0 < k → k < 2 ^ 31 → wait_done tid (u32 (tid + k)) ≡ true
unfolding wait_done
wait_done_after tid k h p q = ground arith

-- The status word lies `k` transfers before the identifier, or is the identifier itself.
abbrev pub IsPending : ℕ → ℕ → Type 0
IsPending tid s = (k : ℕ) × (k < 2 ^ 31) × (s ≡ u32 (tid + (2 ^ 32 - k)))

wait_done_before : (tid s : ℕ) → tid < 2 ^ 32 → IsPending tid s → wait_done tid s ≡ false
unfolding wait_done
wait_done_before tid s h (k, small, e) = ground (arith, e)

abbrev pub AllPending : ℕ → List ℕ → Type 0
AllPending tid [] = Unit
AllPending tid (s ∷ ss) = IsPending tid s × AllPending tid ss

-- `snrt_dma_wait` ends at the first status word that lies past the identifier, also where the
-- identifiers wrap around, and not before: the polls that saw the identifier itself or one of the
-- 2^31 - 1 before it are all consumed.
pub wait_first :
    (tid k : ℕ) (before after : List ℕ)
    → tid < 2 ^ 32
    → 0 < k
    → k < 2 ^ 31
    → AllPending tid before
    → wait tid (before ++ (u32 (tid + k) ∷ after)) ≡ some after
unfolding wait
wait_first tid k [] after h p q a = rw (wait_done_after tid k h p q) refl
wait_first tid k (s ∷ ss) after h p q a =
    rw (wait_done_before tid s h a.0) (wait_first tid k ss after h p q a.1)

-- As long as every poll sees the identifier or one of the 2^31 - 1 before it, the loop goes on.
pub wait_blocks : (tid : ℕ) (ss : List ℕ) → tid < 2 ^ 32 → AllPending tid ss → wait tid ss ≡ none
unfolding wait
wait_blocks tid [] h a = refl
wait_blocks tid (s ∷ ss) h a = rw (wait_done_before tid s h a.0) (wait_blocks tid ss h a.1)
