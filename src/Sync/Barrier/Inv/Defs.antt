-- ===== src/Sync/Barrier/Inv/Defs.antt =====
-- The invariant of the barrier of sw/snRuntime/src/sync.h.
use snax_rebase.Base.{ℕ, ◌+◌, ◌≤◌, ◌<◌, ◌^◌, ◌≡◌, ◌⊎◌, ◌==◌, if◌then◌else◌}
use snax_rebase.Base.Family.{count}
use snax_rebase.Base.Words.{u32}
use snax_rebase.Sync.Barrier.{Barrier, Pc, outside, entered, last, cleared, waiting}

-- A thread is in the open round `e`, or still waits in the round before it.
abbrev pub Phase : ℕ → Pc → Type 0
Phase e (outside r) = r ≡ e
Phase e (entered r p) = (r ≡ e) × (p ≡ u32 e)
Phase e (last r) = r ≡ e
Phase e (cleared r) = r ≡ e
Phase e (waiting r p) = ((r ≡ e) × (p ≡ u32 e)) ⊎ ((r + 1 ≡ e) × (p ≡ u32 r))

-- counted in round `e`
abbrev pub arrived : ℕ → Pc → ℕ
arrived e (waiting r p) = if r == e then 1 else 0
arrived e (last r) = 1
arrived e (cleared r) = 1
arrived e (outside r) = 0
arrived e (entered r p) = 0

abbrev pub is_last : Pc → ℕ
is_last (last r) = 1
is_last (outside r) = 0
is_last (entered r p) = 0
is_last (cleared r) = 0
is_last (waiting r p) = 0

abbrev pub is_cleared : Pc → ℕ
is_cleared (cleared r) = 1
is_cleared (outside r) = 0
is_cleared (entered r p) = 0
is_cleared (last r) = 0
is_cleared (waiting r p) = 0

-- What the counts say, as numbers.
pub record Counts (n cnt all lasts clears : ℕ) : Type 0 where
  pub single : lasts + clears ≤ 1
  pub counted : clears ≡ 0 → cnt ≡ all
  pub zeroed : 0 < clears → cnt ≡ 0
  pub room : lasts + clears ≡ 0 → all < n
  pub complete : 0 < lasts + clears → all ≡ n

pub record Inv (n e : ℕ) (b : Barrier) (pc : ℕ → Pc) : Type 0 where
  pub some_threads : 0 < n
  pub few : n < 2 ^ 32
  pub open_round : b.iteration ≡ u32 e
  pub phase : (i : ℕ) → i < n → Phase e (pc i)
  pub counts : Counts n b.cnt (count (arrived e) n pc) (count is_last n pc) (count is_cleared n pc)
