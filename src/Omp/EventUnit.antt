-- ===== src/Omp/EventUnit.antt =====
-- The event unit of sw/snRuntime/src/omp/eu.h, in its variant with cluster interrupts: the main thread
-- hands an event to the workers, which sleep until they are woken. One step is one access to the shared
-- structure by one core.
pub mod Inv
pub mod Safety
pub mod Wait
use snax_rebase.Base.{
  ℕ, ◌+◌, ◌<◌, ◌≤◌, ◌≡◌, ◌≢◌, Bool, true, false, List, [], ◌∷◌, ltb, ◌==◌, bit_and, ◌-◌, ◌/◌, ◌%◌,
  ◌^◌, if◌then◌else◌,
}
use snax_rebase.Base.Memory.{update}
use snax_rebase.Base.Words.{u32, add_u32, sub_u32}

-- The first four fields of the member `e` of `eu_t`
pub record Event : Type 0 where
  pub fn : ℕ
  pub args : ℕ
  pub argc : ℕ
  pub nthreads : ℕ

-- `eu_t`; `workers_mutex` is used by no function of the event unit.
pub record EventUnit : Type 0 where
  pub workers_in_loop : ℕ
  pub exit_flag : ℕ
  pub workers_wfi : ℕ
  pub event : Event
  pub fini_count : ℕ

-- Where a worker stands in `eu_event_loop`
pub data Pc : Type 0 where
  out : Pc  -- before `eu_event_loop`
  top : Pc  -- `while (1)`
  check : Pc  -- the exit flag was not set
  run : Pc  -- its index is below `nthreads`
  finish : Pc  -- before `fini_count` is incremented
  rest : Pc  -- before `workers_wfi` is incremented
  asleep : Pc  -- `snrt_wfi`
  awake : Pc  -- before its interrupt is cleared
  cleared : Pc  -- before `workers_wfi` is decremented
  gone : Pc  -- it has returned

-- A worker, its interrupt, and the events that it has called, the last one first. No code reads
-- `calls`.
pub record Worker : Type 0 where
  pub pc : Pc
  pub pending : Bool
  pub calls : List Event

-- A step of the worker with the core index `core`. `snrt_wfi` returns when the interrupt is pending.
pub data Move (core : ℕ) (u : EventUnit) (w : Worker) : EventUnit → Worker → Type 0 where
  enter :
      w.pc ≡ out
      → Move core u w
          (record u { workers_in_loop = add_u32 u.workers_in_loop 1 })
          (record w { pc = top })
  see_exit : w.pc ≡ top → u.exit_flag ≢ 0 → Move core u w u (record w { pc = gone })
  no_exit : w.pc ≡ top → u.exit_flag ≡ 0 → Move core u w u (record w { pc = check })
  take : w.pc ≡ check → core < u.event.nthreads → Move core u w u (record w { pc = run })
  skip : w.pc ≡ check → u.event.nthreads ≤ core → Move core u w u (record w { pc = finish })
  call : w.pc ≡ run → Move core u w u (record w { pc = finish; calls = u.event ∷ w.calls })
  fini :
      w.pc ≡ finish
      → Move core u w (record u { fini_count = add_u32 u.fini_count 1 }) (record w { pc = rest })
  sleep :
      w.pc ≡ rest
      → Move core u w
          (record u { workers_wfi = add_u32 u.workers_wfi 1 })
          (record w { pc = asleep })
  wake : w.pc ≡ asleep → w.pending ≡ true → Move core u w u (record w { pc = awake })
  clear : w.pc ≡ awake → Move core u w u (record w { pc = cleared; pending = false })
  leave :
      w.pc ≡ cleared
      → Move core u w (record u { workers_wfi = sub_u32 u.workers_wfi 1 }) (record w { pc = top })

-- Where the main thread stands, in `snrt_omp_bootstrap`, `parallelRegion`, that is
-- `eu_dispatch_push` and `eu_run_empty`, or `eu_exit`. `seen` is the local `scratch` of a wait.
pub data Main : Type 0 where
  boot : Main
  idle : Main
  push_read : Event → Main
  push_wait : Event → (seen : ℕ) → Main
  filled : Main  -- `eu_dispatch_push` has returned
  reset : Main  -- `fini_count` is zero
  wake_wait : (seen : ℕ) → Main
  own : Main  -- the workers are woken
  own_alone : Main  -- the event is for the main thread alone
  collect_read : Main
  collect_wait : (seen : ℕ) → Main
  closing : Main  -- before `nthreads = 0`
  exit_read : Main
  exit_wait : (seen : ℕ) → Main
  exit_set : Main
  exit_wake : Main
  exit_wake_wait : (seen : ℕ) → Main
  ended : Main

-- The event unit, the workers by index, where worker `i` is core `i + 1`, and the main thread with the
-- events that it has called. `closed` lists the events that `eu_run_empty` has closed, the last one
-- first; no code reads the two lists.
pub record System : Type 0 where
  pub unit : EventUnit
  pub workers : ℕ → Worker
  pub main : Main
  pub main_calls : List Event
  pub closed : List Event

-- `~0x1 & ((1 << numcores) - 1)` of `wake_workers`, for fewer than 32 compute cores: from 32 on the C
-- does not define the shift, and a step that wakes the workers is not possible.
abbrev pub wake_mask : ℕ → ℕ
wake_mask numcores = bit_and (2 ^ 32 - 2) (2 ^ numcores - 1)

-- `snrt_int_cluster_set` with this mask, in a cluster with `n` workers: bit `c` stands for core `c`.
abbrev pub interrupt_all : ℕ → (ℕ → Worker) → ℕ → Worker
interrupt_all n ws i =
    if wake_mask (n + 1) / 2 ^ (i + 1) % 2 == 1 then record (ws i) { pending = true } else ws i

abbrev pub close_event : Event → Event
close_event e = record e { nthreads = 0 }

-- A step of the main thread of a cluster with `n` workers
pub data MainMove (n : ℕ) (s : System) : System → Type 0 where
  booted : s.main ≡ boot → s.unit.workers_wfi ≡ n → MainMove n s (record s { main = idle })
  push : (e : Event) → s.main ≡ idle → MainMove n s (record s { main = push_read e })
  push_reads :
      (e : Event)
      → s.main ≡ push_read e
      → MainMove n s (record s { main = push_wait e s.unit.workers_in_loop })
  fill :
      (e : Event) (seen : ℕ)
      → s.main ≡ push_wait e seen
      → s.unit.workers_wfi ≡ seen
      → MainMove n s (record s { unit = record (s.unit) { event = e }; main = filled })
  nothing : s.main ≡ filled → s.unit.event.nthreads ≡ 0 → MainMove n s (record s { main = idle })
  zero_count :
      s.main ≡ filled
      → s.unit.event.nthreads ≢ 0
      → MainMove n s (record s { unit = record (s.unit) { fini_count = 0 }; main = reset })
  alone : s.main ≡ reset → s.unit.event.nthreads ≤ 1 → MainMove n s (record s { main = own_alone })
  wake_reads :
      s.main ≡ reset
      → 1 < s.unit.event.nthreads
      → MainMove n s (record s { main = wake_wait s.unit.workers_in_loop })
  wakes :
      (seen : ℕ)
      → s.main ≡ wake_wait seen
      → s.unit.workers_wfi ≡ seen
      → n + 1 < 32
      → MainMove n s (record s { workers = interrupt_all n s.workers; main = own })
  calls_own :
      s.main ≡ own
      → MainMove n s (record s { main = collect_read; main_calls = s.unit.event ∷ s.main_calls })
  calls_alone :
      s.main ≡ own_alone
      → MainMove n s (record s { main = closing; main_calls = s.unit.event ∷ s.main_calls })
  collects :
      s.main ≡ collect_read → MainMove n s (record s { main = collect_wait s.unit.workers_in_loop })
  collected :
      (seen : ℕ)
      → s.main ≡ collect_wait seen
      → s.unit.fini_count ≡ seen
      → MainMove n s (record s { main = closing })
  closes :
      s.main ≡ closing
      → MainMove n s (record s {
        unit = record (s.unit) { event = close_event s.unit.event };
        main = idle;
        closed = s.unit.event ∷ s.closed;
      })
  exits : s.main ≡ idle → MainMove n s (record s { main = exit_read })
  exits_filled :
      s.main ≡ filled → s.unit.event.nthreads ≢ 0 → MainMove n s (record s { main = exit_read })
  exit_reads :
      s.main ≡ exit_read → MainMove n s (record s { main = exit_wait s.unit.workers_in_loop })
  exit_waits :
      (seen : ℕ)
      → s.main ≡ exit_wait seen
      → s.unit.workers_wfi ≡ seen
      → MainMove n s (record s { main = exit_set })
  sets_flag :
      s.main ≡ exit_set
      → MainMove n s (record s { unit = record (s.unit) { exit_flag = 1 }; main = exit_wake })
  exit_wake_reads :
      s.main ≡ exit_wake → MainMove n s (record s { main = exit_wake_wait s.unit.workers_in_loop })
  exit_wakes :
      (seen : ℕ)
      → s.main ≡ exit_wake_wait seen
      → s.unit.workers_wfi ≡ seen
      → n + 1 < 32
      → MainMove n s (record s { workers = interrupt_all n s.workers; main = ended })

pub data Step (n : ℕ) (s : System) : System → Type 0 where
  worker :
      (i : ℕ) {u : EventUnit} {w : Worker}
      → i < n
      → Move (i + 1) s.unit (s.workers i) u w
      → Step n s (record s { unit = u; workers = update s.workers i w })
  main_thread : {t : System} → MainMove n s t → Step n s t

-- `eu_init` has cleared the structure, and no worker has entered its loop.
abbrev pub init : System
init = record {
  unit = record {
    workers_in_loop = 0;
    exit_flag = 0;
    workers_wfi = 0;
    event = record { fn = 0; args = 0; argc = 0; nthreads = 0 };
    fini_count = 0;
  };
  workers = λ _. record { pc = out; pending = false; calls = [] };
  main = boot;
  main_calls = [];
  closed = [];
}

pub data Reach (n : ℕ) : System → Type 0 where
  start : Reach n init
  later : {s t : System} → Reach n s → Step n s t → Reach n t

-- The events of a list that a core has to call: those for more threads than its index
abbrev pub executed : ℕ → List Event → List Event
executed core [] = []
executed core (e ∷ es) = if ltb core e.nthreads then e ∷ executed core es else executed core es
