-- ===== src/Omp/EventUnit/Inv/Main.antt =====
-- A step of the main thread keeps the invariant of the event unit (sw/snRuntime/src/omp/eu.h,
-- `parallelRegion` of sw/snRuntime/src/omp/omp.h).
use snax_rebase.Base.{
  ℕ, ◌+◌, ◌/◌, ◌%◌, ◌^◌, ◌<◌, ◌≡◌, ◌≢◌, ◌==◌, ◌||◌, refl, sym, subst, ap, true, false, List, ◌∷◌,
  if◌then◌else◌, arith, ◌∙◌,
}
use snax_rebase.Base.Family.{count, count_full, count_zero, count_all}
use snax_rebase.Base.Table.{all_below, all_below_at}
use snax_rebase.Omp.EventUnit.{
  Event, EventUnit, Worker, Main, boot, idle, push_read, push_wait, filled, reset, wake_wait, own,
  own_alone, collect_read, collect_wait, closing, exit_read, exit_wait, exit_set, exit_wake,
  exit_wake_wait, ended, interrupt_all, wake_mask, close_event, MainMove, booted, push, push_reads,
  fill, nothing, zero_count, alone, wake_reads, wakes, calls_own, calls_alone, collects, collected,
  closes, exits, exits_filled, exit_reads, exit_waits, sets_flag, exit_wake_reads, exit_wakes,
  System,
}
use snax_rebase.Omp.EventUnit.Inv.Defs.{
  Stage, booting, stage_of, allowed, is_open, Ok, in_wfi, in_loop, counted, UnitOk, MainOk,
  is_closing, log_at, InvAt, Inv,
}
use snax_rebase.Omp.EventUnit.Inv.Worker.{in_wfi-le, counted-le}

place-in_loop :
    (st : Stage) (w : Worker) → st ≢ booting → allowed st w.pc w.pending ≡ true → in_loop w ≡ 1
place-in_loop booting w later place = absurd (later refl)
place-in_loop st w later place = ground arith

module _ {n : ℕ} {u : EventUnit} {ws : ℕ → Worker} {calls l : List Event} where
  -- Where the counter of the sleeping workers is `n`, each of them is counted.
  each-in_wfi :
      {m : Main} (i : ℕ) → i < n → u.workers_wfi ≡ n → InvAt n m u ws calls l → in_wfi (ws i) ≡ 1
  each-in_wfi i h e inv =
      omega (arith, inv.wfi, count_full in_wfi in_wfi-le n ws i h, in_wfi-le (ws i))

  each-counted :
      {m : Main} (i : ℕ)
      → i < n
      → u.fini_count ≡ n
      → is_open (stage_of m) ≡ true
      → InvAt n m u ws calls l
      → counted (ws i) ≡ 1
  each-counted i h e opened inv =
      omega (arith, inv.fini opened, count_full counted counted-le n ws i h, counted-le (ws i))

  -- Once the start is over, all workers are in the loop.
  all_in_loop : {m : Main} → stage_of m ≢ booting → InvAt n m u ws calls l → u.workers_in_loop ≡ n
  all_in_loop {m = m} later inv =
      inv.loop
      ∙ count_all in_loop n ws (λ i h. place-in_loop (stage_of m) (ws i) later (inv.each i h).place)

  -- The workers stay as they are.
  next :
      (m m' : Main) (u' : EventUnit) (calls' l' : List Event)
      → u'.workers_wfi ≡ u.workers_wfi
      → u'.workers_in_loop ≡ u.workers_in_loop
      → (is_open (stage_of m') ≡ true → u'.fini_count ≡ count counted n ws)
      → UnitOk (stage_of m') u'
      → MainOk n m' u' calls' l'
      → ((i : ℕ)
          → i < n
          → Ok (stage_of m) (i + 1) u.event (log_at m u l) (ws i)
          → Ok (stage_of m') (i + 1) u'.event (log_at m' u' l') (ws i))
      → InvAt n m u ws calls l
      → InvAt n m' u' ws calls' l'
  next m m' u' calls' l' wfi loop fini stage main each inv = record {
    few = inv.few;
    wfi = wfi ∙ inv.wfi;
    loop = loop ∙ inv.loop;
    fini = fini;
    stage = stage;
    main_thread = main;
    each = λ i h. each i h (inv.each i h);
  }

  stay :
      (m m' : Main) (calls' : List Event)
      → stage_of m' ≡ stage_of m
      → is_closing m' ≡ is_closing m
      → MainOk n m' u calls' l
      → InvAt n m u ws calls l
      → InvAt n m' u ws calls' l
  stay m m' calls' same_stage same_log main inv = record {
    few = inv.few;
    wfi = inv.wfi;
    loop = inv.loop;
    fini = λ opened. inv.fini (ap is_open (sym same_stage) ∙ opened);
    stage = subst (λ st. UnitOk st u) (sym same_stage) inv.stage;
    main_thread = main;
    each = λ i h.
        subst (λ st. Ok st (i + 1) u.event (log_at m' u l) (ws i)) (sym same_stage)
          (subst (λ b. Ok (stage_of m) (i + 1) u.event (if b then u.event ∷ l else l) (ws i))
            (sym same_log) (inv.each i h));
  }

-- The mask has the bit of every compute core but the main one.
wake_table : all_below 32 (λ c. all_below c (λ i. i == 0 || wake_mask c / 2 ^ i % 2 == 1)) ≡ true
unfolding all_below
wake_table = refl

interrupted :
    (n : ℕ) (ws : ℕ → Worker) (i : ℕ)
    → n + 1 < 32
    → i < n
    → interrupt_all n ws i ≡ record (ws i) { pending = true }
interrupted n ws i few h =
    let row = all_below_at 32 _ (n + 1) wake_table few in
    let bit = all_below_at (n + 1) _ (i + 1) row (omega arith) in ground (arith, bit)

-- The main thread interrupts the workers when all of them sleep.
interrupts :
    {n : ℕ} {u : EventUnit} {ws : ℕ → Worker} {calls l : List Event} (m m' : Main)
    → u.workers_wfi ≡ n
    → n + 1 < 32
    → stage_of m ≢ booting
    → is_open (stage_of m) ≡ false
    → (is_open (stage_of m') ≡ true → u.fini_count ≡ 0)
    → UnitOk (stage_of m') u
    → MainOk n m' u calls l
    → ((i : ℕ)
        → in_wfi (ws i) ≡ 1
        → Ok (stage_of m) (i + 1) u.event (log_at m u l) (ws i)
        → Ok (stage_of m') (i + 1) u.event (log_at m' u l) (record (ws i) { pending = true }))
    → InvAt n m u ws calls l
    → InvAt n m' u (interrupt_all n ws) calls l
interrupts {n = n} {u = u} {ws = ws} m m' wfi few later shut fini stage main each inv =
    let set = interrupted n ws in
    record {
      few = inv.few;
      wfi =
          wfi
          ∙ sym (
              count_all in_wfi n (interrupt_all n ws)
                (λ i h. ap in_wfi (set i few h) ∙ each-in_wfi i h wfi inv));
      loop =
          all_in_loop later inv
          ∙ sym (
              count_all in_loop n (interrupt_all n ws) (λ i h.
                ap in_loop (set i few h)
                ∙ place-in_loop (stage_of m) (ws i) later (inv.each i h).place));
      fini = λ opened.
          fini opened
          ∙ sym (
              count_zero counted n (interrupt_all n ws)
                (λ i h. ap counted (set i few h) ∙ ground (arith, each-in_wfi i h wfi inv)));
      stage = stage;
      main_thread = main;
      each = λ i h.
          subst (Ok (stage_of m') (i + 1) u.event (log_at m' u _)) (sym (set i few h))
            (each i (each-in_wfi i h wfi inv) (inv.each i h));
    }

pub at :
    {n : ℕ} {s : System} {m : Main}
    → s.main ≡ m
    → Inv n s
    → InvAt n m s.unit s.workers s.main_calls s.closed
at {n = n} {s = s} e inv = subst (λ m. InvAt n m s.unit s.workers s.main_calls s.closed) e inv

pub Main-Inv : {n : ℕ} {s t : System} → MainMove n s t → Inv n s → Inv n t
Main-Inv {n = n} {s = s} (booted h wfi) inv =
    let v = at h inv in
    next boot idle s.unit s.main_calls s.closed refl refl (λ opened. ground arith) (v.stage.0)
      (v.main_thread) (λ i h o. ground (arith, o, each-in_wfi i h wfi v)) v
Main-Inv {s = s} (push e h) inv =
    let v = at h inv in stay idle (push_read e) s.main_calls refl refl (v.main_thread) v
Main-Inv {s = s} (push_reads e h) inv =
    let v = at h inv in
    stay (push_read e) (push_wait e s.unit.workers_in_loop) s.main_calls refl refl
      (v.main_thread, all_in_loop (ground arith) v) v
Main-Inv {n = n} {s = s} (fill e seen h wfi) inv =
    let v = at h inv in
    next (push_wait e seen) filled (record (s.unit) { event = e }) s.main_calls s.closed refl refl
      (λ opened. ground arith) (v.stage) (v.main_thread.0)
      (λ i h o. ground (arith, o, each-in_wfi i h (wfi ∙ v.main_thread.1) v)) v
Main-Inv {n = n} {s = s} (nothing h zero) inv =
    let v = at h inv in
    next filled idle s.unit s.main_calls s.closed refl refl (λ opened. ground arith) (v.stage)
      (v.main_thread) (λ i h o. ground (arith, o)) v
Main-Inv {n = n} {s = s} (zero_count h some) inv =
    let v = at h inv in
    next filled reset (record (s.unit) { fini_count = 0 }) s.main_calls s.closed refl refl
      (λ opened. ground arith) (v.stage) (v.main_thread, ground arith, refl)
      (λ i h o. ground (arith, o)) v
Main-Inv {s = s} (alone h one) inv =
    let v = at h inv in
    stay reset own_alone s.main_calls refl refl (v.main_thread.0, ground (arith, v.main_thread)) v
Main-Inv {s = s} (wake_reads h many) inv =
    let v = at h inv in
    stay reset (wake_wait s.unit.workers_in_loop) s.main_calls refl refl
      (v.main_thread.0, v.main_thread.1, v.main_thread.2, all_in_loop (ground arith) v) v
Main-Inv {n = n} {s = s} (wakes seen h wfi few) inv =
    let v = at h inv in
    interrupts (wake_wait seen) own (wfi ∙ v.main_thread.3) few (ground arith) refl
      (λ opened. v.main_thread.2) v.stage (v.main_thread.0, v.main_thread.1)
      (λ i asleep_i o. ground (arith, o)) v
Main-Inv {s = s} (calls_own h) inv =
    let v = at h inv in
    stay own collect_read (s.unit.event ∷ s.main_calls) refl refl (ground (arith, v.main_thread)) v
Main-Inv {n = n} {s = s} (calls_alone h) inv =
    let v = at h inv in
    next own_alone closing s.unit (s.unit.event ∷ s.main_calls) s.closed refl refl
      (λ opened. ground arith) (v.stage) (ground (arith, v.main_thread))
      (λ i h o. ground (arith, o, v.main_thread)) v
Main-Inv {s = s} (collects h) inv =
    let v = at h inv in
    stay collect_read (collect_wait s.unit.workers_in_loop) s.main_calls refl refl
      (v.main_thread, all_in_loop (ground arith) v) v
Main-Inv {n = n} {s = s} (collected seen h fini) inv =
    let v = at h inv in
    next (collect_wait seen) closing s.unit s.main_calls s.closed refl refl (λ opened. ground arith)
      (v.stage) (v.main_thread.0)
      (λ i h o. ground (arith, o, each-counted i h (fini ∙ v.main_thread.1) refl v)) v
Main-Inv {n = n} {s = s} (closes h) inv =
    let v = at h inv in
    next closing idle (record (s.unit) { event = close_event s.unit.event }) s.main_calls
      (s.unit.event ∷ s.closed) refl refl (λ opened. ground arith) (v.stage) (v.main_thread)
      (λ i h o. ground (arith, o)) v
Main-Inv {s = s} (exits h) inv =
    let v = at h inv in stay idle exit_read s.main_calls refl refl (v.main_thread) v
Main-Inv {n = n} {s = s} (exits_filled h some) inv =
    let v = at h inv in
    next filled exit_read s.unit s.main_calls s.closed refl refl (λ opened. ground arith) (v.stage)
      (v.main_thread) (λ i h o. ground (arith, o)) v
Main-Inv {s = s} (exit_reads h) inv =
    let v = at h inv in
    stay exit_read (exit_wait s.unit.workers_in_loop) s.main_calls refl refl
      (v.main_thread, all_in_loop (ground arith) v) v
Main-Inv {n = n} {s = s} (exit_waits seen h wfi) inv =
    let v = at h inv in
    next (exit_wait seen) exit_set s.unit s.main_calls s.closed refl refl (λ opened. ground arith)
      (v.stage) (v.main_thread.0)
      (λ i h o. ground (arith, o, each-in_wfi i h (wfi ∙ v.main_thread.1) v)) v
Main-Inv {n = n} {s = s} (sets_flag h) inv =
    let v = at h inv in
    next exit_set exit_wake (record (s.unit) { exit_flag = 1 }) s.main_calls s.closed refl refl
      (λ opened. ground arith) (refl) (v.main_thread) (λ i h o. ground (arith, o)) v
Main-Inv {s = s} (exit_wake_reads h) inv =
    let v = at h inv in
    stay exit_wake (exit_wake_wait s.unit.workers_in_loop) s.main_calls refl refl
      (v.main_thread, all_in_loop (ground arith) v) v
Main-Inv {n = n} {s = s} (exit_wakes seen h wfi few) inv =
    let v = at h inv in
    interrupts (exit_wake_wait seen) ended (wfi ∙ v.main_thread.1) few (ground arith) refl
      (λ opened. ground arith) v.stage v.main_thread.0 (λ i asleep_i o. ground (arith, o)) v
