-- ===== src/Omp/EventUnit/Wait.antt =====
-- The wait of `eu_run_empty` (sw/snRuntime/src/omp/eu.h) for the workers of an event.
use snax_rebase.Base.{
  ℕ, ◌+◌, ◌<◌, ◌^◌, ◌≡◌, ◌⊎◌, inl, inr, refl, sym, ◌∙◌, Bool, true, false, if◌then◌else◌, arith,
  dec_lt, ℕ_discrete,
}
use snax_rebase.Base.Family.{count, count-update, count_split}
use snax_rebase.Base.Memory.{update}
use snax_rebase.Omp.EventUnit.{
  EventUnit, Worker, Pc, out, top, check, run, finish, rest, asleep, awake, cleared, gone,
  collect_wait, Move, enter, see_exit, no_exit, take, skip, call, fini, sleep, wake, clear, leave,
  System, Reach,
}
use snax_rebase.Omp.EventUnit.Inv.Defs.{open_event, allowed, counted}
use snax_rebase.Omp.EventUnit.Inv.Main.{at}
use snax_rebase.Omp.EventUnit.Inv.Worker.{counted-le}
use snax_rebase.Omp.EventUnit.Safety.{Reach-Inv}

-- The steps that a worker has left before it sleeps with no interrupt pending, at most
pub rank_at : Pc → Bool → ℕ
rank_at out q = 0
rank_at top q = 6
rank_at check q = 5
rank_at run q = 4
rank_at finish q = 3
rank_at rest q = 2
rank_at asleep q = if q then 9 else 1
rank_at awake q = 8
rank_at cleared q = 7
rank_at gone q = 0

abbrev pub rank : Worker → ℕ
rank w = rank_at w.pc w.pending

Move-rank :
    {core : ℕ} {u u' : EventUnit} {w w' : Worker}
    → Move core u w u' w'
    → u.exit_flag ≡ 0
    → allowed open_event w.pc w.pending ≡ true
    → rank w' < rank w
unfolding rank_at
Move-rank (enter e) flag place = ground arith
Move-rank (see_exit e h) flag place = ground arith
Move-rank (no_exit e h) flag place = ground arith
Move-rank (take e h) flag place = ground arith
Move-rank (skip e h) flag place = ground arith
Move-rank (call e) flag place = ground arith
Move-rank (fini e) flag place = ground arith
Move-rank (sleep e) flag place = ground arith
Move-rank (wake e h) flag place = ground arith
Move-rank (clear e) flag place = ground arith
Move-rank (leave e) flag place = ground arith

-- A worker that has not counted itself yet can take a step.
ready_step :
    (core : ℕ) (u : EventUnit) (w : Worker) (p : Pc) (q : Bool)
    → w.pc ≡ p
    → w.pending ≡ q
    → allowed open_event p q ≡ true
    → counted w ≡ 0
    → (u' : EventUnit) × (w' : Worker) × Move core u w u' w'
ready_step core u w out q e d place zero = absurd (ground arith)
ready_step core u w top q e d place zero = elim (ℕ_discrete u.exit_flag 0) [
  | yes unset ↦ (u, record w { pc = check }, no_exit e unset)
  | no set ↦ (u, record w { pc = gone }, see_exit e set)
]
ready_step core u w check q e d place zero = elim (dec_lt core u.event.nthreads) [
  | yes low ↦ (u, record w { pc = run }, take e low)
  | no high ↦ (u, record w { pc = finish }, skip e (omega arith))
]
ready_step core u w run q e d place zero = (_, _, call e)
ready_step core u w finish q e d place zero = (_, _, fini e)
ready_step core u w rest q e d place zero = (_, _, sleep e)
ready_step core u w asleep true e d place zero = (_, _, wake e d)
ready_step core u w asleep false e d place zero = absurd (ground arith)
ready_step core u w awake q e d place zero = (_, _, clear e)
ready_step core u w cleared q e d place zero = (_, _, leave e)
ready_step core u w gone q e d place zero = absurd (ground arith)

-- With fewer than 31 workers, where the main thread waits in `eu_run_empty` until `fini_count` is the
-- number that it has read, on a reachable state, the wait is over or one of the workers can take a step.
pub collect_progress :
    (n : ℕ) (s : System) (seen : ℕ)
    → n < 31
    → Reach n s
    → s.main ≡ collect_wait seen
    → (s.unit.fini_count ≡ seen)
      ⊎ ((i : ℕ) × (u : EventUnit) × (w : Worker) × (i < n) × Move (i + 1) s.unit (s.workers i) u w)
collect_progress n s seen few reach m =
    let v = at m (Reach-Inv (omega (arith, few)) reach) in
    elim (count_split counted counted-le n s.workers) [
      | inl all ↦ inl (v.fini refl ∙ all ∙ sym v.main_thread.1)
      | inr (i, h, zero) ↦
          (let c =
              ready_step (i + 1) s.unit (s.workers i) (s.workers i).pc (s.workers i).pending refl
                refl (v.each i h).place zero in
            inr (i, c.0, c.1, h, c.2))
    ]

-- With fewer than `2 ^ 32` workers, of which 31 and more are never woken, where the main thread waits in
-- `eu_run_empty` until `fini_count` is the number that it has read, on a reachable state, each step of a worker lowers the sum over the
-- workers of the bound on the steps that each has left.
pub collect_descends :
    (n : ℕ) (s : System) (seen : ℕ) (i : ℕ) (u : EventUnit) (w : Worker)
    → n < 2 ^ 32
    → Reach n s
    → s.main ≡ collect_wait seen
    → i < n
    → Move (i + 1) s.unit (s.workers i) u w
    → count rank n (update s.workers i w) < count rank n s.workers
collect_descends n s seen i u w few reach m h move =
    let v = at m (Reach-Inv few reach) in
    omega (arith, count-update rank n s.workers i w h, Move-rank move v.stage (v.each i h).place)
