-- ===== src/Examples/Mover.antt =====
-- The data mover at concrete values (sw/snRuntime/src/dm.h).
use snax_rebase.Base.{◌≡◌, refl, true, List, [], ◌∷◌, ◌++◌, arith}
use snax_rebase.DataMover.{DataMover, Task, dm_init, fill_1d}
use snax_rebase.DataMover.Queue.{IsValid, contents}
use snax_rebase.DataMover.Fifo.{Op, copy, copy_2d, round, run, run_fifo}
use snax_rebase.DataMover.Race.{System, Steps, idle, race_overruns}

-- Three tasks are queued, the oldest in slot 2.
abbrev three_queued : DataMover
three_queued = record dm_init { queue_back = 2; queue_front = 1; queue_fill = 3 }

abbrev three_queued_IsValid : IsValid three_queued
three_queued_IsValid = record { back_in = omega arith; fill_in = omega arith; front_lem = refl }

abbrev some_copy : Task → Task
some_copy = fill_1d 0x1000 0x2000 64

abbrev three_calls : List Op
three_calls = copy 1 2 64 ∷ round true ∷ copy_2d 3 4 8 16 16 2 0 ∷ []

run_fifo_example :
    IsValid (run three_calls three_queued).final
    × (contents three_queued ++ (run three_calls three_queued).accepted
        ≡ (run three_calls three_queued).started ++ contents (run three_calls three_queued).final)
run_fifo_example = run_fifo three_calls three_queued three_queued_IsValid

abbrev two_cores : System
two_cores = record { mover = three_queued; pc = λ _. idle }

race_overruns_example :
    (t : System) × Steps two_cores t
    × (t.mover.queue_fill ≡ 5)
    × (t.mover.queue t.mover.queue_back ≡ fill_1d 5 6 7 (three_queued.queue 2))
race_overruns_example =
    race_overruns two_cores 0 1 some_copy (fill_1d 5 6 7) three_queued_IsValid refl refl refl refl
      (omega arith)
