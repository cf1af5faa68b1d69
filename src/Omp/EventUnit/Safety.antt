-- ===== src/Omp/EventUnit/Safety.antt =====
-- What the event unit of sw/snRuntime/src/omp/eu.h promises to `parallelRegion` of
-- sw/snRuntime/src/omp/omp.h: which core calls which event.
use snax_rebase.Base.{ℕ, ◌+◌, ◌<◌, ◌^◌, ◌≡◌, refl, sym, true, arith}
use snax_rebase.Base.Family.{count_zero}
use snax_rebase.Omp.EventUnit.{
  idle, init, System, worker, main_thread, Reach, start, later, executed,
}
use snax_rebase.Omp.EventUnit.Inv.Defs.{loose, allowed, in_wfi, in_loop, Inv}
use snax_rebase.Omp.EventUnit.Inv.Worker.{Worker-Inv}
use snax_rebase.Omp.EventUnit.Inv.Main.{Main-Inv, at}

pub Reach-Inv : {n : ℕ} {s : System} → n < 2 ^ 32 → Reach n s → Inv n s
Reach-Inv {n = n} few start = record {
  few = few;
  wfi = sym (count_zero in_wfi n init.workers (λ i h. refl));
  loop = sym (count_zero in_loop n init.workers (λ i h. refl));
  fini = λ opened. ground arith;
  stage = (refl, refl);
  main_thread = refl;
  each = λ i h. record { place = refl; history = refl; running = λ r. ground arith };
}
Reach-Inv few (later before (worker i h move)) = Worker-Inv i h move (Reach-Inv few before)
Reach-Inv few (later before (main_thread move)) = Main-Inv move (Reach-Inv few before)

-- Where the main thread is between two calls of the event unit, after any interleaving of the cores of
-- a cluster with `n` workers, fewer than `2 ^ 32`, it has called each of the events that were closed;
-- the worker with index `i` has called, once and in the same order, those of them that were for more
-- threads than its core index `i + 1`, and no other; and it is on its way to sleep, or asleep with no
-- interrupt pending. With 31 or more workers this is about the runs in which the main thread does not
-- wake them, since C does not define the mask for them.
pub events_once :
    (n : ℕ) (s : System) (i : ℕ)
    → n < 2 ^ 32
    → i < n
    → Reach n s
    → s.main ≡ idle
    → (s.main_calls ≡ executed 0 s.closed)
      × ((s.workers i).calls ≡ executed (i + 1) s.closed)
      × (allowed loose (s.workers i).pc (s.workers i).pending ≡ true)
events_once n s i few h reach m =
    let v = at m (Reach-Inv few reach) in (v.main_thread, (v.each i h).history, (v.each i h).place)
