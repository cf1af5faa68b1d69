-- ===== src/Omp/EventUnit/Inv/Defs.antt =====
-- The stages of an event in sw/snRuntime/src/omp/eu.h, and where the workers may be in each.
use snax_rebase.Base.{ℕ, ◌+◌, ◌<◌, ◌^◌, ◌≡◌, Bool, true, false, ◌&&◌, not, List, ◌∷◌, if◌then◌else◌}
use snax_rebase.Base.Family.{count}
use snax_rebase.Omp.EventUnit.{
  Event, EventUnit, Worker, Pc, out, top, check, run, finish, rest, asleep, awake, cleared, gone,
  Main, boot, idle, push_read, push_wait, filled, reset, wake_wait, own, own_alone, collect_read,
  collect_wait, closing, exit_read, exit_wait, exit_set, exit_wake, exit_wake_wait, ended, System,
  executed,
}

-- The workers enter; they go to sleep after an event, or sleep already; they all sleep; they are woken
-- for an event; they all sleep while the exit flag is set; they are woken to leave.
pub data Stage : Type 0 where
  booting loose tight open_event leaving exiting : Stage

abbrev pub stage_of : Main → Stage
stage_of boot = booting
stage_of idle = loose
stage_of (push_read _) = loose
stage_of (push_wait _ _) = loose
stage_of filled = tight
stage_of reset = tight
stage_of (wake_wait _) = tight
stage_of own = open_event
stage_of own_alone = tight
stage_of collect_read = open_event
stage_of (collect_wait _) = open_event
stage_of closing = loose
stage_of exit_read = loose
stage_of (exit_wait _) = loose
stage_of exit_set = tight
stage_of exit_wake = leaving
stage_of (exit_wake_wait _) = leaving
stage_of ended = exiting

-- The places of a stage, with the state of the worker's interrupt
abbrev pub allowed : Stage → Pc → Bool → Bool
allowed booting p q = not q && elim p [
  | out ↦ true
  | top ↦ true
  | check ↦ true
  | run ↦ false
  | finish ↦ true
  | rest ↦ true
  | asleep ↦ true
  | awake ↦ false
  | cleared ↦ false
  | gone ↦ false
]
allowed loose p q = not q && elim p [
  | out ↦ false
  | top ↦ false
  | check ↦ false
  | run ↦ false
  | finish ↦ false
  | rest ↦ true
  | asleep ↦ true
  | awake ↦ false
  | cleared ↦ false
  | gone ↦ false
]
allowed tight p q = not q && elim p [
  | out ↦ false
  | top ↦ false
  | check ↦ false
  | run ↦ false
  | finish ↦ false
  | rest ↦ false
  | asleep ↦ true
  | awake ↦ false
  | cleared ↦ false
  | gone ↦ false
]
allowed leaving p q = not q && elim p [
  | out ↦ false
  | top ↦ false
  | check ↦ false
  | run ↦ false
  | finish ↦ false
  | rest ↦ false
  | asleep ↦ true
  | awake ↦ false
  | cleared ↦ false
  | gone ↦ false
]
allowed open_event p q = elim p [
  | out ↦ false
  | top ↦ not q
  | check ↦ not q
  | run ↦ not q
  | finish ↦ not q
  | rest ↦ not q
  | asleep ↦ true
  | awake ↦ q
  | cleared ↦ not q
  | gone ↦ false
]
allowed exiting p q = elim p [
  | out ↦ false
  | top ↦ not q
  | check ↦ false
  | run ↦ false
  | finish ↦ false
  | rest ↦ false
  | asleep ↦ true
  | awake ↦ q
  | cleared ↦ not q
  | gone ↦ not q
]

-- The worker is through with the open event.
abbrev pub is_through : Pc → Bool → Bool
is_through out q = false
is_through top q = false
is_through check q = false
is_through run q = false
is_through finish q = true
is_through rest q = true
is_through asleep q = not q
is_through awake q = false
is_through cleared q = false
is_through gone q = false

abbrev pub is_open : Stage → Bool
is_open booting = false
is_open loose = false
is_open tight = false
is_open open_event = true
is_open leaving = false
is_open exiting = false

abbrev pub is_run : Pc → Bool
is_run out = false
is_run top = false
is_run check = false
is_run run = true
is_run finish = false
is_run rest = false
is_run asleep = false
is_run awake = false
is_run cleared = false
is_run gone = false

-- The worker of core `core`, where `e` is the event and `l` the list of those before it
pub record Ok (st : Stage) (core : ℕ) (e : Event) (l : List Event) (w : Worker) : Type 0 where
  pub place : allowed st w.pc w.pending ≡ true
  pub history :
      w.calls ≡ executed core (if is_open st && is_through w.pc w.pending then e ∷ l else l)
  pub running : is_run w.pc ≡ true → core < e.nthreads

-- What the counters count
abbrev pub in_wfi : Worker → ℕ
in_wfi w = elim w.pc [
  | out ↦ 0
  | top ↦ 0
  | check ↦ 0
  | run ↦ 0
  | finish ↦ 0
  | rest ↦ 0
  | asleep ↦ 1
  | awake ↦ 1
  | cleared ↦ 1
  | gone ↦ 0
]

abbrev pub in_loop : Worker → ℕ
in_loop w = elim w.pc [
  | out ↦ 0
  | top ↦ 1
  | check ↦ 1
  | run ↦ 1
  | finish ↦ 1
  | rest ↦ 1
  | asleep ↦ 1
  | awake ↦ 1
  | cleared ↦ 1
  | gone ↦ 1
]

abbrev pub counted : Worker → ℕ
counted w = elim w.pc [
  | out ↦ 0
  | top ↦ 0
  | check ↦ 0
  | run ↦ 0
  | finish ↦ 0
  | rest ↦ 1
  | asleep ↦ if w.pending then 0 else 1
  | awake ↦ 0
  | cleared ↦ 0
  | gone ↦ 0
]

-- What holds of the structure in each stage
abbrev pub UnitOk : Stage → EventUnit → Type 0
UnitOk booting u = (u.exit_flag ≡ 0) × (u.event.nthreads ≡ 0)
UnitOk loose u = u.exit_flag ≡ 0
UnitOk tight u = u.exit_flag ≡ 0
UnitOk open_event u = u.exit_flag ≡ 0
UnitOk leaving u = u.exit_flag ≡ 1
UnitOk exiting u = u.exit_flag ≡ 1

-- What holds where the main thread stands: what it has called, what it has read
abbrev pub MainOk : ℕ → Main → EventUnit → List Event → List Event → Type 0
MainOk n boot u calls l = calls ≡ executed 0 l
MainOk n idle u calls l = calls ≡ executed 0 l
MainOk n (push_read _) u calls l = calls ≡ executed 0 l
MainOk n (push_wait _ seen) u calls l = (calls ≡ executed 0 l) × (seen ≡ n)
MainOk n filled u calls l = calls ≡ executed 0 l
MainOk n reset u calls l = (calls ≡ executed 0 l) × (0 < u.event.nthreads) × (u.fini_count ≡ 0)
MainOk n (wake_wait seen) u calls l =
    (calls ≡ executed 0 l) × (0 < u.event.nthreads) × (u.fini_count ≡ 0) × (seen ≡ n)
MainOk n own u calls l = (calls ≡ executed 0 l) × (0 < u.event.nthreads)
MainOk n own_alone u calls l = (calls ≡ executed 0 l) × (u.event.nthreads ≡ 1)
MainOk n collect_read u calls l = calls ≡ executed 0 (u.event ∷ l)
MainOk n (collect_wait seen) u calls l = (calls ≡ executed 0 (u.event ∷ l)) × (seen ≡ n)
MainOk n closing u calls l = calls ≡ executed 0 (u.event ∷ l)
MainOk n exit_read u calls l = calls ≡ executed 0 l
MainOk n (exit_wait seen) u calls l = (calls ≡ executed 0 l) × (seen ≡ n)
MainOk n exit_set u calls l = calls ≡ executed 0 l
MainOk n exit_wake u calls l = calls ≡ executed 0 l
MainOk n (exit_wake_wait seen) u calls l = (calls ≡ executed 0 l) × (seen ≡ n)
MainOk n ended u calls l = calls ≡ executed 0 l

-- The events that are over for the workers
abbrev pub is_closing : Main → Bool
is_closing closing = true
is_closing boot = false
is_closing idle = false
is_closing (push_read _) = false
is_closing (push_wait _ _) = false
is_closing filled = false
is_closing reset = false
is_closing (wake_wait _) = false
is_closing own = false
is_closing own_alone = false
is_closing collect_read = false
is_closing (collect_wait _) = false
is_closing exit_read = false
is_closing (exit_wait _) = false
is_closing exit_set = false
is_closing exit_wake = false
is_closing (exit_wake_wait _) = false
is_closing ended = false

abbrev pub log_at : Main → EventUnit → List Event → List Event
log_at m u l = if is_closing m then u.event ∷ l else l

pub record InvAt (n : ℕ) (m : Main) (u : EventUnit) (ws : ℕ → Worker) (calls l : List Event)
    : Type 0 where
  pub few : n < 2 ^ 32
  pub wfi : u.workers_wfi ≡ count in_wfi n ws
  pub loop : u.workers_in_loop ≡ count in_loop n ws
  pub fini : is_open (stage_of m) ≡ true → u.fini_count ≡ count counted n ws
  pub stage : UnitOk (stage_of m) u
  pub main_thread : MainOk n m u calls l
  pub each : (i : ℕ) → i < n → Ok (stage_of m) (i + 1) u.event (log_at m u l) (ws i)

abbrev pub Inv : ℕ → System → Type 0
Inv n s = InvAt n s.main s.unit s.workers s.main_calls s.closed
