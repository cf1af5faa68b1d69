-- ===== src/Examples/Events.antt =====
-- The event unit with one worker, which calls one event.
use snax_rebase.Base.{ℕ, ◌+◌, ◌<◌, ◌≡◌, ◌⊎◌, refl, true, false, [], ◌∷◌, arith}
use snax_rebase.Base.Family.{count}
use snax_rebase.Base.Memory.{update}
use snax_rebase.Omp.EventUnit.{
  Event, EventUnit, Worker, asleep, awake, Move, enter, no_exit, take, skip, call, fini, sleep,
  wake, clear, leave, MainMove, booted, push, push_reads, fill, zero_count, wake_reads, wakes,
  calls_own, collects, collected, closes, System, worker, main_thread, Reach, start, later,
  executed,
}
use snax_rebase.Omp.EventUnit.Inv.Defs.{loose, allowed}
use snax_rebase.Omp.EventUnit.Safety.{events_once}
use snax_rebase.Omp.EventUnit.Wait.{rank, collect_progress, collect_descends}

-- An event for two threads
abbrev pair : Event
pair = record { fn = 64; args = 128; argc = 1; nthreads = 2 }

-- A step of the only worker
-- A step of the main thread
by_main : {s t : System} → Reach 1 s → MainMove 1 s t → Reach 1 t
by_main r m = later r (main_thread m)

by_worker :
    {s : System} {u : EventUnit} {w : Worker}
    → Reach 1 s
    → Move 1 s.unit (s.workers 0) u w
    → Reach 1 (record s { unit = u; workers = update s.workers 0 w })
by_worker r m = later r (worker 0 (omega arith) m)

abbrev booted_run : (s : System) × Reach 1 s
booted_run = (
  _,
  by_main
      (by_worker
        (by_worker
          (by_worker (by_worker (by_worker start (enter refl)) (no_exit refl refl))
            (skip refl (omega arith)))
          (fini refl))
        (sleep refl))
      (booted refl refl),
)

-- The main thread waits for the worker, which has its interrupt pending.
abbrev waiting_run : (s : System) × Reach 1 s
waiting_run = (
  _,
  (by_main
      (by_main
        (by_main
          (by_main
            (by_main
              (by_main (by_main (by_main (booted_run.1) (push pair refl)) (push_reads pair refl))
                (fill pair 1 refl refl))
              (zero_count refl (omega arith)))
            (wake_reads refl (omega arith)))
          (wakes 1 refl refl (omega arith)))
        (calls_own refl))
      (collects refl)),
)

abbrev idle_run : (s : System) × Reach 1 s
idle_run = (
  _,
  (by_main
      (by_main
        (by_worker
          (by_worker
            (by_worker
              (by_worker
                (by_worker
                  (by_worker (by_worker (by_worker (waiting_run.1) (wake refl refl)) (clear refl))
                    (leave refl))
                  (no_exit refl refl))
                (take refl (omega arith)))
              (call refl))
            (fini refl))
          (sleep refl))
        (collected 1 refl refl))
      (closes refl)),
)

events_once_example :
    (pair ∷ [] ≡ executed 0 (pair ∷ []))
    × (pair ∷ [] ≡ executed 1 (pair ∷ []))
    × (allowed loose asleep false ≡ true)
events_once_example = events_once 1 (idle_run.0) 0 (omega arith) (omega arith) (idle_run.1) refl

collect_progress_example :
    (waiting_run.0.unit.fini_count ≡ 1)
    ⊎ ((i : ℕ) × (u : EventUnit) × (w : Worker) × (i < 1)
        × Move (i + 1) waiting_run.0.unit (waiting_run.0.workers i) u w)
collect_progress_example = collect_progress 1 (waiting_run.0) 1 (omega arith) (waiting_run.1) refl

abbrev woken : Worker
woken = record (waiting_run.0.workers 0) { pc = awake }

collect_descends_example :
    count rank 1 (update waiting_run.0.workers 0 woken) < count rank 1 waiting_run.0.workers
collect_descends_example =
    collect_descends 1 (waiting_run.0) 1 0 waiting_run.0.unit woken (omega arith) (waiting_run.1)
      refl (omega arith) (wake refl refl)
