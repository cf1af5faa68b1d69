-- ===== src/Sync/Barrier.antt =====
-- `snrt_partial_barrier` of sw/snRuntime/src/sync.h, one access to the shared words at a time. The
-- software part of `snrt_global_barrier`, among the data mover cores, is the same code.
pub mod Inv
pub mod Safety
use snax_rebase.Base.{ℕ, ◌+◌, ◌<◌, ◌≡◌, ◌≢◌}
use snax_rebase.Base.Memory.{update}
use snax_rebase.Base.Words.{u32, add_u32}

-- `snrt_barrier_t`
pub record Barrier : Type 0 where
  pub cnt : ℕ
  pub iteration : ℕ

-- Where a thread stands, with its local `prev_it` where that is live. `rounds` counts the calls
-- that it has returned from; no code reads it.
pub data Pc : Type 0 where
  outside : (rounds : ℕ) → Pc
  entered : (rounds prev_it : ℕ) → Pc  -- `prev_it` is read
  last : (rounds : ℕ) → Pc  -- `cnt == n`, before `cnt = 0`
  cleared : (rounds : ℕ) → Pc  -- before `iteration` is incremented
  waiting : (rounds prev_it : ℕ) → Pc  -- the `while` loop

-- One access by one thread, with `n` the number of threads that have to enter.
pub data Move (n : ℕ) (b : Barrier) : Pc → Barrier → Pc → Type 0 where
  enter : {r : ℕ} → Move n b (outside r) b (entered r b.iteration)
  arrive :
      {r p : ℕ}
      → add_u32 b.cnt 1 ≢ n
      → Move n b (entered r p) (record b { cnt = add_u32 b.cnt 1 }) (waiting r p)
  arrive_last :
      {r p : ℕ}
      → add_u32 b.cnt 1 ≡ n
      → Move n b (entered r p) (record b { cnt = add_u32 b.cnt 1 }) (last r)
  clear : {r : ℕ} → Move n b (last r) (record b { cnt = 0 }) (cleared r)
  release :
      {r : ℕ}
      → Move n b (cleared r) (record b { iteration = add_u32 b.iteration 1 }) (outside (r + 1))
  spin : {r p : ℕ} → p ≡ b.iteration → Move n b (waiting r p) b (waiting r p)
  leave : {r p : ℕ} → p ≢ b.iteration → Move n b (waiting r p) b (outside (r + 1))

-- `n` threads over one barrier. An index from `n` on names no thread.
pub record System : Type 0 where
  pub shared : Barrier
  pub pc : ℕ → Pc

pub data Step (n : ℕ) (s : System) : System → Type 0 where
  pick :
      (i : ℕ) {b : Barrier} {p : Pc}
      → i < n
      → Move n s.shared (s.pc i) b p
      → Step n s (record { shared = b; pc = update s.pc i p })

-- The words are zero before the first use, and no thread has entered.
abbrev pub init : System
init = record { shared = record { cnt = 0; iteration = 0 }; pc = λ _. outside 0 }

pub data Reach (n : ℕ) : System → Type 0 where
  start : Reach n init
  later : {s t : System} → Reach n s → Step n s t → Reach n t

-- The calls that a thread has returned from, and those in which it has been counted.
abbrev pub completed : Pc → ℕ
completed (outside r) = r
completed (entered r _) = r
completed (last r) = r
completed (cleared r) = r
completed (waiting r _) = r

abbrev pub arrivals : Pc → ℕ
arrivals (outside r) = r
arrivals (entered r _) = r
arrivals (last r) = r + 1
arrivals (cleared r) = r + 1
arrivals (waiting r _) = r + 1
