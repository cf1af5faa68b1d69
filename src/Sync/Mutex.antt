-- ===== src/Sync/Mutex.antt =====
-- The mutex of sw/snRuntime/src/sync.h, one access at a time, around the updates of a software
-- interrupt register by `snrt_int_sw_set` and `snrt_int_sw_clear` (global_interrupts.h).
pub mod Safety
use snax_rebase.Base.{
  ℕ, ◌-◌, ◌%◌, ◌^◌, ◌<◌, ◌≡◌, ◌≢◌, Bool, true, false, bit_or, bit_and, List, [], ◌∷◌,
}
use snax_rebase.Base.Memory.{update}

-- An update for a hart: `|= 1 << (hartid & 0x1f)`, `&= ~(1 << (hartid & 0x1f))`
pub data Update : Type 0 where
  sw_set : (hartid : ℕ) → Update
  sw_clear : (hartid : ℕ) → Update

abbrev pub apply : Update → ℕ → ℕ
apply (sw_set hartid) word = bit_or word (2 ^ (hartid % 32))
apply (sw_clear hartid) word = bit_and word (2 ^ 32 - 1 - 2 ^ (hartid % 32))

-- The lock and the register; `log` lists the updates that were stored, the last one first, and no code
-- reads it.
pub record Shared : Type 0 where
  pub lock : ℕ
  pub word : ℕ
  pub log : List Update

-- Where a thread stands
pub data Pc : Type 0 where
  outside : Pc
  testing : Update → Pc  -- the first loop of `snrt_mutex_ttas_acquire`
  swapping : Update → (t0 : ℕ) → Pc  -- the loop around `amoswap.w.aq`, with its register
  reading : Update → Pc  -- the lock is taken
  writing : Update → (read : ℕ) → Pc
  leaving : Pc  -- before `amoswap.w.rl`

pub data Move (s : Shared) : Pc → Shared → Pc → Type 0 where
  acquire : {u : Update} → Move s outside s (swapping u 1)
  ttas_acquire : {u : Update} → Move s outside s (testing u)
  busy : {u : Update} → s.lock ≢ 0 → Move s (testing u) s (testing u)
  free : {u : Update} → s.lock ≡ 0 → Move s (testing u) s (swapping u 1)
  retry :
      {u : Update} {t0 : ℕ}
      → s.lock ≢ 0
      → Move s (swapping u t0) (record s { lock = t0 }) (swapping u s.lock)
  take :
      {u : Update} {t0 : ℕ}
      → s.lock ≡ 0
      → Move s (swapping u t0) (record s { lock = t0 }) (reading u)
  read : {u : Update} → Move s (reading u) s (writing u s.word)
  write :
      {u : Update} {v : ℕ}
      → Move s (writing u v) (record s { word = apply u v; log = u ∷ s.log }) leaving
  release : Move s leaving (record s { lock = 0 }) outside

-- `n` threads. An index from `n` on names no thread.
pub record System : Type 0 where
  pub shared : Shared
  pub pc : ℕ → Pc

pub data Step (n : ℕ) (s : System) : System → Type 0 where
  pick :
      (i : ℕ) {t : Shared} {p : Pc}
      → i < n
      → Move s.shared (s.pc i) t p
      → Step n s (record { shared = t; pc = update s.pc i p })

-- The lock is free, and the register has some value.
abbrev pub init : ℕ → System
init word = record { shared = record { lock = 0; word = word; log = [] }; pc = λ _. outside }

pub data Reach (n word : ℕ) : System → Type 0 where
  start : Reach n word (init word)
  later : {s t : System} → Reach n word s → Step n s t → Reach n word t

-- What a list of updates, the last one first, makes of a register
unfoldable pub applied : ℕ → List Update → ℕ
applied word [] = word
applied word (u ∷ us) = apply u (applied word us)

-- The thread is between the two swaps.
unfoldable pub is_critical : Pc → Bool
is_critical outside = false
is_critical (testing u) = false
is_critical (swapping u t0) = false
is_critical (reading u) = true
is_critical (writing u v) = true
is_critical leaving = true
