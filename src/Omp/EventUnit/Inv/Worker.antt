-- ===== src/Omp/EventUnit/Inv/Worker.antt =====
-- A step of a worker keeps the invariant of the event unit (sw/snRuntime/src/omp/eu.h).
use snax_rebase.Base.{
  ℕ, ◌+◌, ◌≤◌, ◌<◌, ◌^◌, ◌≡◌, refl, sym, subst, ap, ap₂, true, List, ◌∷◌, if◌then◌else◌, arith,
}
use snax_rebase.Base.Family.{count, count-update, count_member, count_full}
use snax_rebase.Base.Memory.{update, update-each}
use snax_rebase.Omp.EventUnit.{
  Event, EventUnit, Worker, Main, reset, wake_wait, Move, enter, see_exit, no_exit, take, skip,
  call, fini, sleep, wake, clear, leave, System,
}
use snax_rebase.Omp.EventUnit.Inv.Defs.{
  Stage, booting, tight, open_event, stage_of, allowed, is_open, Ok, in_wfi, in_loop, counted,
  UnitOk, MainOk, is_closing, log_at, Inv,
}

-- No step of a worker changes the event or the exit flag.
Move-unit :
    {core : ℕ} {u u' : EventUnit} {w w' : Worker}
    → Move core u w u' w'
    → (u'.event ≡ u.event) × (u'.exit_flag ≡ u.exit_flag)
Move-unit (enter _) = (refl, refl)
Move-unit (see_exit _ _) = (refl, refl)
Move-unit (no_exit _ _) = (refl, refl)
Move-unit (take _ _) = (refl, refl)
Move-unit (skip _ _) = (refl, refl)
Move-unit (call _) = (refl, refl)
Move-unit (fini _) = (refl, refl)
Move-unit (sleep _) = (refl, refl)
Move-unit (wake _ _) = (refl, refl)
Move-unit (clear _) = (refl, refl)
Move-unit (leave _) = (refl, refl)

Move-Ok :
    {core : ℕ} {u u' : EventUnit} {w w' : Worker} (st : Stage) (l : List Event)
    → Move core u w u' w'
    → UnitOk st u
    → Ok st core u.event l w
    → Ok st core u.event l w'
Move-Ok booting l (take e h) uo o = absurd (omega arith)
Move-Ok open_event l (call e) uo o = ground (arith, o.running)
Move-Ok st l (enter e) uo o = ground arith
Move-Ok st l (see_exit e h) uo o = ground arith
Move-Ok st l (no_exit e h) uo o = ground arith
Move-Ok st l (take e h) uo o = ground arith
Move-Ok st l (skip e h) uo o = ground arith
Move-Ok st l (call e) uo o = ground arith
Move-Ok st l (fini e) uo o = ground arith
Move-Ok st l (sleep e) uo o = ground arith
Move-Ok st l (wake e h) uo o = ground arith
Move-Ok st l (clear e) uo o = ground arith
Move-Ok st l (leave e) uo o = ground arith

-- The counters follow what they count, while there are fewer than `2 ^ 32` workers.
Move-wfi :
    {core : ℕ} {u u' : EventUnit} {w w' : Worker} (n : ℕ)
    → n < 2 ^ 32
    → Move core u w u' w'
    → in_wfi w ≤ u.workers_wfi
    → u.workers_wfi + 1 ≤ n + in_wfi w
    → u'.workers_wfi + in_wfi w ≡ u.workers_wfi + in_wfi w'
Move-wfi n few (enter e) low high = ground arith
Move-wfi n few (see_exit e h) low high = ground arith
Move-wfi n few (no_exit e h) low high = ground arith
Move-wfi n few (take e h) low high = ground arith
Move-wfi n few (skip e h) low high = ground arith
Move-wfi n few (call e) low high = ground arith
Move-wfi n few (fini e) low high = ground arith
Move-wfi n few (sleep e) low high = ground arith
Move-wfi n few (wake e h) low high = ground arith
Move-wfi n few (clear e) low high = ground arith
Move-wfi n few (leave e) low high = ground arith

Move-loop :
    {core : ℕ} {u u' : EventUnit} {w w' : Worker} (n : ℕ)
    → n < 2 ^ 32
    → Move core u w u' w'
    → u.workers_in_loop + 1 ≤ n + in_loop w
    → u'.workers_in_loop + in_loop w ≡ u.workers_in_loop + in_loop w'
Move-loop n few (enter e) high = ground arith
Move-loop n few (see_exit e h) high = ground arith
Move-loop n few (no_exit e h) high = ground arith
Move-loop n few (take e h) high = ground arith
Move-loop n few (skip e h) high = ground arith
Move-loop n few (call e) high = ground arith
Move-loop n few (fini e) high = ground arith
Move-loop n few (sleep e) high = ground arith
Move-loop n few (wake e h) high = ground arith
Move-loop n few (clear e) high = ground arith
Move-loop n few (leave e) high = ground arith

Move-fini :
    {core : ℕ} {u u' : EventUnit} {w w' : Worker} (n : ℕ)
    → n < 2 ^ 32
    → Move core u w u' w'
    → allowed open_event w.pc w.pending ≡ true
    → u.fini_count + 1 ≤ n + counted w
    → u'.fini_count + counted w ≡ u.fini_count + counted w'
Move-fini n few (enter e) place high = ground arith
Move-fini n few (see_exit e h) place high = ground arith
Move-fini n few (no_exit e h) place high = ground arith
Move-fini n few (take e h) place high = ground arith
Move-fini n few (skip e h) place high = ground arith
Move-fini n few (call e) place high = ground arith
Move-fini n few (fini e) place high = ground arith
Move-fini n few (sleep e) place high = ground arith
Move-fini n few (wake e h) place high = ground arith
Move-fini n few (clear e) place high = ground arith
Move-fini n few (leave e) place high = ground arith

pub in_wfi-le : (w : Worker) → in_wfi w ≤ 1
in_wfi-le w = ground arith

pub in_loop-le : (w : Worker) → in_loop w ≤ 1
in_loop-le w = ground arith

pub counted-le : (w : Worker) → counted w ≤ 1
counted-le w = ground arith

-- No step of a worker counts it while all workers sleep.
Move-tight :
    {core : ℕ} {u u' : EventUnit} {w w' : Worker}
    → Move core u w u' w'
    → allowed tight w.pc w.pending ≡ true
    → u'.fini_count ≡ u.fini_count
Move-tight (enter e) place = ground arith
Move-tight (see_exit e h) place = ground arith
Move-tight (no_exit e h) place = ground arith
Move-tight (take e h) place = ground arith
Move-tight (skip e h) place = ground arith
Move-tight (call e) place = ground arith
Move-tight (fini e) place = ground arith
Move-tight (sleep e) place = ground arith
Move-tight (wake e h) place = ground arith
Move-tight (clear e) place = ground arith
Move-tight (leave e) place = ground arith

-- What the main thread relies on stays.
Main-keep :
    {core : ℕ} {u u' : EventUnit} {w w' : Worker} (n : ℕ) (m : Main) (calls l : List Event)
    → Move core u w u' w'
    → (stage_of m ≡ tight → allowed tight w.pc w.pending ≡ true)
    → MainOk n m u calls l
    → MainOk n m u' calls l
Main-keep n reset calls l move tight_place h =
    ground (arith, Move-unit move, Move-tight move (tight_place refl))
Main-keep n (wake_wait seen) calls l move tight_place h =
    ground (arith, Move-unit move, Move-tight move (tight_place refl))
Main-keep n m calls l move tight_place h = ground (arith, Move-unit move)

Unit-keep :
    {core : ℕ} {u u' : EventUnit} {w w' : Worker} (st : Stage)
    → Move core u w u' w'
    → UnitOk st u
    → UnitOk st u'
Unit-keep booting move h = ground (arith, Move-unit move)
Unit-keep st move h = ground (arith, Move-unit move)

-- A counter that follows its weight on the worker that steps counts what it did count.
count_step :
    (f : Worker → ℕ) (n : ℕ) (ws : ℕ → Worker) (i : ℕ) (w : Worker) (a b : ℕ)
    → i < n
    → a ≡ count f n ws
    → b + f (ws i) ≡ a + f w
    → b ≡ count f n (update ws i w)
count_step f n ws i w a b h e step = omega (arith, count-update f n ws i w h)

open_is : (st : Stage) → is_open st ≡ true → st ≡ open_event
open_is booting h = ground arith
open_is st h = ground arith

-- The same event, before the same list
Ok-same :
    {st : Stage} {core : ℕ} {e e' : Event} {l l' : List Event} {w : Worker}
    → e' ≡ e
    → l' ≡ l
    → Ok st core e l w
    → Ok st core e' l' w
Ok-same {st = st} {core = core} {w = w} p q o =
    subst (λ (x : Event × List Event). Ok st core x.0 x.1 w)
      (sym (ap₂ (λ (a : Event) (b : List Event). (a, b)) p q)) o

log-same :
    (m : Main) (e e' : Event) (l : List Event)
    → e' ≡ e
    → (if is_closing m then e' ∷ l else l) ≡ (if is_closing m then e ∷ l else l)
log-same m e e' l h = ap (λ x. if is_closing m then x ∷ l else l) h

pub Worker-Inv :
    {n : ℕ} {s : System} {u : EventUnit} {w : Worker} (i : ℕ)
    → i < n
    → Move (i + 1) s.unit (s.workers i) u w
    → Inv n s
    → Inv n (record s { unit = u; workers = update s.workers i w })
Worker-Inv {n = n} {s = s} {u = u} {w = w} i h move inv = record {
  few = inv.few;
  wfi = count_step in_wfi n s.workers i w s.unit.workers_wfi u.workers_wfi h inv.wfi (
      Move-wfi n inv.few move (omega (arith, inv.wfi, count_member in_wfi n s.workers i h))
        (omega (arith, inv.wfi, count_full in_wfi in_wfi-le n s.workers i h)));
  loop = count_step in_loop n s.workers i w s.unit.workers_in_loop u.workers_in_loop h inv.loop (
      Move-loop n inv.few move
        (omega (arith, inv.loop, count_full in_loop in_loop-le n s.workers i h)));
  fini = λ opened.
      count_step counted n s.workers i w s.unit.fini_count u.fini_count h (inv.fini opened) (
        Move-fini n inv.few move
          (subst (λ st. allowed st (s.workers i).pc (s.workers i).pending ≡ true)
            (open_is (stage_of s.main) opened) ((inv.each i h).place))
          (omega (arith, inv.fini opened, count_full counted counted-le n s.workers i h)));
  stage = Unit-keep (stage_of s.main) move inv.stage;
  main_thread =
      Main-keep n s.main s.main_calls s.closed move
        (λ e.
          subst (λ st. allowed st (s.workers i).pc (s.workers i).pending ≡ true) e
            ((inv.each i h).place))
        inv.main_thread;
  each = λ j hj.
      Ok-same ((Move-unit move).0)
        (log-same s.main s.unit.event u.event s.closed ((Move-unit move).0))
        (update-each
          (λ j w. Ok (stage_of s.main) (j + 1) s.unit.event (log_at s.main s.unit s.closed) w)
          s.workers i w j
          (Move-Ok (stage_of s.main) (log_at s.main s.unit s.closed) move inv.stage (inv.each i h))
          (inv.each j hj));
}
