-- ===== src/Sync/Barrier/Safety.antt =====
-- What holds in every reachable state of the barrier (sw/snRuntime/src/sync.h).
use snax_rebase.Base.{ℕ, ◌≤◌, ◌<◌, ◌^◌, ◌≡◌, refl, arith}
use snax_rebase.Base.Family.{count_zero, count_all}
use snax_rebase.Base.Words.{u32}
use snax_rebase.Sync.Barrier.{
  Barrier, Pc, outside, entered, last, cleared, waiting, System, pick, init, Reach, start, later,
  completed, arrivals,
}
use snax_rebase.Sync.Barrier.Inv.{Move-Inv}
use snax_rebase.Sync.Barrier.Inv.Defs.{Phase, arrived, is_last, is_cleared, Inv}

Inv-init : (n : ℕ) → 0 < n → n < 2 ^ 32 → Inv n 0 init.shared init.pc
Inv-init n pos few = record {
  some_threads = pos;
  few = few;
  open_round = refl;
  phase = λ i lt. refl;
  counts =
      let a = count_zero (arrived 0) n init.pc (λ j lt. refl) in
      let l = count_zero is_last n init.pc (λ j lt. refl) in
      let c = count_zero is_cleared n init.pc (λ j lt. refl) in ground (arith, a, l, c);
}

pub Reach-Inv :
    {n : ℕ} {s : System} → 0 < n → n < 2 ^ 32 → Reach n s → (e : ℕ) × Inv n e s.shared s.pc
Reach-Inv {n} pos few start = (0, Inv-init n pos few)
Reach-Inv pos few (later r (pick i lt mv)) = Move-Inv (Reach-Inv pos few r).1 i lt mv

Phase-completed : (e : ℕ) (p : Pc) → Phase e p → (completed p ≤ e) × (e ≤ arrivals p)
Phase-completed e (outside r) h = omega arith
Phase-completed e (entered r p) h = omega arith
Phase-completed e (last r) h = omega arith
Phase-completed e (cleared r) h = omega arith
Phase-completed e (waiting r p) h = omega arith

-- With at least one and fewer than 2^32 threads, no thread returns from its k-th call of the
-- barrier before each of the `n` threads has been counted in its own k-th call. This holds in every
-- reachable state, in every round, also after the words have wrapped around.
pub barrier_safe :
    {n : ℕ} {s : System}
    → 0 < n
    → n < 2 ^ 32
    → Reach n s
    → (i j : ℕ) → i < n
    → j < n
    → completed (s.pc i) ≤ arrivals (s.pc j)
barrier_safe {s = s} pos few r i j hi hj =
    let (e, inv) = Reach-Inv pos few r in
    omega (
      arith,
      Phase-completed e (s.pc i) (inv.phase i hi),
      Phase-completed e (s.pc j) (inv.phase j hj),
    )

-- The thread is in the `while` loop and its test holds.
abbrev pub IsSpinning : Barrier → Pc → Type 0
IsSpinning b (waiting r p) = p ≡ b.iteration
IsSpinning b (outside r) = ⊥
IsSpinning b (entered r p) = ⊥
IsSpinning b (last r) = ⊥
IsSpinning b (cleared r) = ⊥

spinning_counted :
    (e : ℕ) (b : Barrier) (p : Pc)
    → b.iteration ≡ u32 e
    → Phase e p
    → IsSpinning b p
    → (arrived e p ≡ 1) × (is_last p ≡ 0) × (is_cleared p ≡ 0)
spinning_counted e b (waiting r p) it h s = ground (arith, it, s)
spinning_counted e b (outside r) it h s = absurd s
spinning_counted e b (entered r p) it h s = absurd s
spinning_counted e b (last r) it h s = absurd s
spinning_counted e b (cleared r) it h s = absurd s

-- With at least one and fewer than 2^32 threads the barrier does not deadlock: in no reachable
-- state do all `n` threads spin.
pub barrier_live :
    {n : ℕ} {s : System}
    → 0 < n
    → n < 2 ^ 32
    → Reach n s
    → ¬ ((i : ℕ) → i < n → IsSpinning s.shared (s.pc i))
barrier_live {n} {s} pos few r all =
    let (e, inv) = Reach-Inv pos few r in
    let each = λ (j : ℕ) (lt : j < n).
      spinning_counted e s.shared (s.pc j) inv.open_round (inv.phase j lt) (all j lt) in
    let l = count_zero is_last n s.pc (λ j lt. (each j lt).1) in
    let c = count_zero is_cleared n s.pc (λ j lt. (each j lt).2) in
    omega (arith, inv.counts.room, l, c, count_all (arrived e) n s.pc (λ j lt. (each j lt).0))
