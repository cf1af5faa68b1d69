-- ===== src/Sync/Reduction.antt =====
-- `snrt_global_reduction_dma` of sw/snRuntime/src/sync.h with more than one cluster: a binary tree of
-- clusters, each of which sends a buffer or adds one to its own, as a step relation over the accesses to
-- the elements at one index of the buffers. A global barrier stands between the sends and the additions
-- of a level, but only a barrier of the cluster between its additions and the next level.
pub mod Ending
pub mod Outcome
pub mod Parallel
use snax_rebase.Base.{
  ℕ, zero, suc, ◌+◌, ◌-◌, ◌*◌, ◌/◌, ◌%◌, ◌^◌, ◌≤◌, ◌<◌, ◌≡◌, Bool, true, false, ◌&&◌, not, ltb,
  ◌==◌, if◌then◌else◌,
}
use snax_rebase.Base.Memory.{update}

-- `is_active` and `is_sender` of a cluster at a level of the tree
unfoldable pub is_active : ℕ → ℕ → Bool
is_active level cluster = cluster % 2 ^ level == 0

unfoldable pub is_sender : ℕ → ℕ → Bool
is_sender level cluster = not (cluster % 2 ^ (level + 1) == 0)

-- The element type is the program's `double`: only its addition is used.
module _ {A : Type 0} (add : A → A → A) where
  -- The loop of one compute core over its `n` items from index `start` on, in one cluster.
  unfoldable pub add_items : ℕ → ℕ → (ℕ → A) → (ℕ → A) → ℕ → A
  add_items start zero src dst = dst
  add_items start (suc n) src dst =
      add_items (start + 1) n src (λ k. if k == start then add (dst k) (src k) else dst k)

  -- The compute cores of a cluster up to `cores`, each on its own share.
  unfoldable pub add_cores : ℕ → ℕ → (ℕ → A) → (ℕ → A) → ℕ → A
  add_cores items zero src dst = dst
  add_cores items (suc core) src dst =
      add_items (core * items) items src (add_cores items core src dst)

-- Where a cluster stands, at the level that it names: before its transfer, in the global barrier, past
-- it, and between the read and the write of the addition, with the value read
pub data Phase (A : Type 0) : Type 0 where
  sending : ℕ → Phase A
  arrived : ℕ → Phase A
  reducing : ℕ → Phase A
  adding : ℕ → A → Phase A

-- How far that is
abbrev pub progress : {A : Type 0} → Phase A → ℕ
progress (sending level) = 2 * level
progress (arrived level) = 2 * level + 1
progress (reducing level) = 2 * level + 2
progress (adding level old) = 2 * level + 2

-- A call: the element of every cluster's source buffer at the index, and whether the index is among
-- those that the compute cores share, each of which one core adds to once (Parallel). `levels` is
-- `ceil(log2(clusters))` of the C library.
pub record Reduction (A : Type 0) : Type 0 where
  pub add : A → A → A
  pub clusters : ℕ
  pub levels : ℕ
  pub is_shared : Bool
  pub src : ℕ → A

-- The call at index `k` of buffers with `len` elements, with `cores` compute cores in each cluster:
-- each core adds to `len / cores` elements.
abbrev pub reduction_at : {A : Type 0} → (A → A → A) → ℕ → ℕ → ℕ → ℕ → (ℕ → ℕ → A) → ℕ → Reduction A
reduction_at add clusters levels len cores src k = record {
  add = add;
  clusters = clusters;
  levels = levels;
  is_shared = ltb k (cores * (len / cores));
  src = λ c. src c k;
}

-- The element of every cluster's destination buffer, and where every cluster stands
pub record System (A : Type 0) : Type 0 where
  pub dst : ℕ → A
  pub phase : ℕ → Phase A

-- The transfer of a cluster, to the cluster that lies `1 << level` before it
unfoldable pub sent : {A : Type 0} → Reduction A → ℕ → ℕ → (ℕ → A) → ℕ → A
unfolding is_active is_sender
sent r level c dst =
    if is_active level c && is_sender level c then update dst (c - 2 ^ level) (r.src c) else dst

-- Whether a cluster adds to the element
unfoldable pub adds : {A : Type 0} → Reduction A → ℕ → ℕ → Bool
unfolding is_active is_sender
adds r level c = is_active level c && not (is_sender level c) && r.is_shared

-- A step of cluster `c`. The global barrier lets a cluster pass when all clusters have arrived.
pub data Step {A : Type 0} (r : Reduction A) (s : System A) : System A → Type 0 where
  send :
      (c level : ℕ)
      → c < r.clusters
      → s.phase c ≡ sending level
      → level < r.levels
      → Step r s (record { dst = sent r level c s.dst; phase = update s.phase c (arrived level) })
  release :
      (c level : ℕ)
      → c < r.clusters
      → s.phase c ≡ arrived level
      → ((d : ℕ) → d < r.clusters → 2 * level + 1 ≤ progress (s.phase d))
      → Step r s (record s { phase = update s.phase c (reducing level) })
  skip :
      (c level : ℕ)
      → c < r.clusters
      → s.phase c ≡ reducing level
      → adds r level c ≡ false
      → Step r s (record s { phase = update s.phase c (sending (level + 1)) })
  read :
      (c level : ℕ)
      → c < r.clusters
      → s.phase c ≡ reducing level
      → adds r level c ≡ true
      → Step r s (record s { phase = update s.phase c (adding level (s.dst c)) })
  write :
      (c level : ℕ) (old : A)
      → c < r.clusters
      → s.phase c ≡ adding level old
      → Step r s (record {
        dst = update s.dst c (r.add old (r.src c));
        phase = update s.phase c (sending (level + 1));
      })

pub data Reach {A : Type 0} (r : Reduction A) (dst : ℕ → A) : System A → Type 0 where
  start : Reach r dst (record { dst = dst; phase = λ _. sending 0 })
  later : {s t : System A} → Reach r dst s → Step r s t → Reach r dst t
