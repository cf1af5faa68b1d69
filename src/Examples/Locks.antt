-- ===== src/Examples/Locks.antt =====
-- The mutex with two threads: one has stored its update, the other one waits.
use snax_rebase.Base.{◌≡◌, ◌⊎◌, false, refl, arith, [], ◌∷◌}
use snax_rebase.Base.Memory.{update}
use snax_rebase.Sync.Mutex.{
  sw_set, sw_clear, Shared, Pc, Move, acquire, retry, take, read, write, System, pick, Reach, start,
  later, applied, is_critical,
}
use snax_rebase.Sync.Mutex.Safety.{updates_kept}

first :
    {s : System} {t : Shared} {p : Pc}
    → Reach 2 4 s
    → Move s.shared (s.pc 0) t p
    → Reach 2 4 (record { shared = t; pc = update s.pc 0 p })
first r m = later r (pick 0 (omega arith) m)

second :
    {s : System} {t : Shared} {p : Pc}
    → Reach 2 4 s
    → Move s.shared (s.pc 1) t p
    → Reach 2 4 (record { shared = t; pc = update s.pc 1 p })
second r m = later r (pick 1 (omega arith) m)

abbrev stored_run : (s : System) × Reach 2 4 s
stored_run = (
  _,
  first
      (first
        (second
          (second (first (first start (acquire {u = sw_set 3})) (take refl))
            (acquire {u = sw_clear 2}))
          (retry (omega arith)))
        read)
      write,
)

updates_kept_example :
    ((is_critical (stored_run.0.pc 0) ≡ false) ⊎ (is_critical (stored_run.0.pc 1) ≡ false))
    × (stored_run.0.shared.word ≡ applied 4 (sw_set 3 ∷ []))
updates_kept_example =
    updates_kept 2 4 (stored_run.0) 0 1 (omega arith) (omega arith) (omega arith) (stored_run.1)
