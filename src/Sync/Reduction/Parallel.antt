-- ===== src/Sync/Reduction/Parallel.antt =====
-- The compute cores of a cluster share the additions without overlap (sw/snRuntime/src/sync.h).
use snax_rebase.Base.{ℕ, zero, suc, ◌+◌, ◌*◌, ◌≡◌, ◌&&◌, ◌==◌, ltb, leb, if◌then◌else◌, arith}
use snax_rebase.Sync.Reduction.{add_items, add_cores}

module _ {A : Type 0} (add : A → A → A) where
  add_items_lem :
      (n start : ℕ) (src dst : ℕ → A) (k : ℕ)
      → add_items add start n src dst k
        ≡ (if leb start k && ltb k (start + n) then add (dst k) (src k) else dst k)
  unfolding add_items
  add_items_lem zero start src dst k = ground arith
  add_items_lem (suc n) start src dst k = ground (
    arith,
    add_items_lem n (start + 1) src (λ k. if k == start then add (dst k) (src k) else dst k) k,
  )

  -- After the loops of the compute cores every index below the number of cores times the items of
  -- each has been added to once, and every other index not at all.
  pub add_cores_once :
      (items cores : ℕ) (src dst : ℕ → A) (k : ℕ)
      → add_cores add items cores src dst k
        ≡ (if ltb k (cores * items) then add (dst k) (src k) else dst k)
  unfolding add_cores
  add_cores_once items zero src dst k = ground arith
  add_cores_once items (suc core) src dst k = ground (
    arith,
    add_items_lem items (core * items) src (add_cores add items core src dst) k,
    add_cores_once items core src dst k,
  )
