-- ===== src/Sync/Mutex/Safety.antt =====
-- The exclusion by the mutex of sw/snRuntime/src/sync.h, and what becomes of the register that it guards
-- (global_interrupts.h).
use snax_rebase.Base.{
  ℕ, ◌<◌, ◌≡◌, ◌≢◌, ◌⊎◌, inl, inr, refl, sym, ap, subst, ◌∙◌, true, false, arith, ℕ_discrete,
  Bool-cases,
}
use snax_rebase.Base.Memory.{update, update_self, update_ne}
use snax_rebase.Sync.Mutex.{
  apply, Shared, Pc, outside, testing, swapping, reading, writing, leaving, Move, acquire,
  ttas_acquire, busy, free, retry, take, read, write, release, System, pick, Reach, start, later,
  applied, is_critical,
}

-- What holds of a thread: its register has the locked value, and what it has read is still there.
Holds : Shared → Pc → Type 0
Holds s outside = Unit {0}
Holds s (testing u) = Unit {0}
Holds s (swapping u t0) = t0 ≡ 1
Holds s (reading u) = s.lock ≡ 1
Holds s (writing u v) = (s.lock ≡ 1) × (v ≡ s.word)
Holds s leaving = s.lock ≡ 1

record Inv (n word : ℕ) (s : System) : Type 0 where
  locked : (s.shared.lock ≡ 0) ⊎ (s.shared.lock ≡ 1)
  sum : s.shared.word ≡ applied word s.shared.log
  each : (i : ℕ) → i < n → Holds s.shared (s.pc i)
  alone :
      (i j : ℕ) → i < n → j < n → is_critical (s.pc i) ≡ true → is_critical (s.pc j) ≡ true → i ≡ j

-- A thread between the swaps has the lock.
critical_locks : (s : Shared) (p : Pc) → is_critical p ≡ true → Holds s p → s.lock ≡ 1
unfolding is_critical Holds
critical_locks s p c h = ground arith

-- The thread itself after its step, the lock, and the register
Move-own :
    {s t : Shared} {p q : Pc}
    → Move s p t q
    → (s.lock ≡ 0) ⊎ (s.lock ≡ 1)
    → Holds s p
    → Holds t q × ((t.lock ≡ 0) ⊎ (t.lock ≡ 1))
unfolding Holds
Move-own acquire l h = (refl, l)
Move-own ttas_acquire l h = (tt, l)
Move-own (busy e) l h = (tt, l)
Move-own (free e) l h = (refl, l)
Move-own (retry e) l h = ground arith
Move-own (take e) l h = ground arith
Move-own read l h = ((h, refl), l)
Move-own write l h = ground arith
Move-own release l h = (tt, inl refl)

-- A thread that is not between the swaps, or whose steps go on alone, keeps what holds of it.
Move-others :
    {s t : Shared} {p q : Pc} (r : Pc)
    → Move s p t q
    → Holds s p
    → Holds s r
    → (is_critical p ≡ true → is_critical r ≡ false)
    → Holds t r
unfolding Holds is_critical
Move-others outside move h k alone = tt
Move-others (testing u) move h k alone = tt
Move-others (swapping u t0) move h k alone = k
Move-others r acquire h k alone = k
Move-others r ttas_acquire h k alone = k
Move-others r (busy e) h k alone = k
Move-others r (free e) h k alone = k
Move-others (reading u) (retry e) h k alone = h
Move-others (writing u v) (retry e) h k alone = (h, k.1)
Move-others leaving (retry e) h k alone = h
Move-others (reading u) (take e) h k alone = absurd (omega arith)
Move-others (writing u v) (take e) h k alone = absurd (omega (arith, k.0))
Move-others leaving (take e) h k alone = absurd (omega arith)
Move-others r read h k alone = k
Move-others (reading u) write h k alone = ground (arith, alone refl)
Move-others (writing u v) write h k alone = ground (arith, alone refl)
Move-others leaving write h k alone = ground (arith, alone refl)
Move-others (reading u) release h k alone = ground (arith, alone refl)
Move-others (writing u v) release h k alone = ground (arith, alone refl)
Move-others leaving release h k alone = ground (arith, alone refl)

-- A thread comes between the swaps only when the lock is free.
Move-critical :
    {s t : Shared} {p q : Pc}
    → Move s p t q
    → is_critical q ≡ true
    → (is_critical p ≡ true) ⊎ (s.lock ≡ 0)
unfolding is_critical
Move-critical acquire c = ground arith
Move-critical ttas_acquire c = ground arith
Move-critical (busy e) c = ground arith
Move-critical (free e) c = ground arith
Move-critical (retry e) c = ground arith
Move-critical (take e) c = inr e
Move-critical read c = inl refl
Move-critical write c = inl refl
Move-critical release c = ground arith

-- The register follows the log.
Move-sum :
    {s t : Shared} {p q : Pc} (word : ℕ)
    → Move s p t q
    → Holds s p
    → s.word ≡ applied word s.log
    → t.word ≡ applied word t.log
unfolding Holds applied
Move-sum word (write {u = u}) h e = ap (apply u) (h.1 ∙ e)
Move-sum word acquire h e = e
Move-sum word ttas_acquire h e = e
Move-sum word (busy f) h e = e
Move-sum word (free f) h e = e
Move-sum word (retry f) h e = e
Move-sum word (take f) h e = e
Move-sum word read h e = e
Move-sum word release h e = e

module _ {n word : ℕ} {s : System} {t : Shared} {p : Pc} (i : ℕ) (hi : i < n)
    (move : Move s.shared (s.pc i) t p) (inv : Inv n word s) where
  -- Where the thread was between the swaps, no other one is.
  others_out : (j : ℕ) → j < n → i ≢ j → is_critical (s.pc i) ≡ true → is_critical (s.pc j) ≡ false
  others_out j hj other c = elim (Bool-cases (is_critical (s.pc j))) [
    | inl both ↦ absurd (other (inv.alone i j hi hj c both))
    | inr out ↦ out
  ]

  -- Where the thread is between the swaps after its step, no other one is.
  no_intruder : (j : ℕ) → j < n → i ≢ j → is_critical p ≡ true → is_critical (s.pc j) ≡ true → ⊥
  no_intruder j hj other c d = elim (Move-critical move c) [
    | inl before ↦ other (inv.alone i j hi hj before d)
    | inr unlocked ↦ omega (arith, critical_locks s.shared (s.pc j) d (inv.each j hj))
  ]

  alone_after :
      (a b : ℕ)
      → a < n
      → b < n
      → is_critical (update s.pc i p a) ≡ true
      → is_critical (update s.pc i p b) ≡ true
      → a ≡ b
  alone_after a b ha hb ca cb = elim (ℕ_discrete i a) [
    | yes is_a ↦ elim (ℕ_discrete i b) [
      | yes is_b ↦ sym is_a ∙ is_b
      | no not_b ↦ absurd (
          no_intruder b hb not_b
            (ap is_critical (sym (update_self s.pc i p))
              ∙ subst (λ x. is_critical (update s.pc i p x) ≡ true) (sym is_a) ca)
            (ap is_critical (sym (update_ne s.pc i b p not_b)) ∙ cb))
    ]
    | no not_a ↦ elim (ℕ_discrete i b) [
      | yes is_b ↦ absurd (
          no_intruder a ha not_a
            (ap is_critical (sym (update_self s.pc i p))
              ∙ subst (λ x. is_critical (update s.pc i p x) ≡ true) (sym is_b) cb)
            (ap is_critical (sym (update_ne s.pc i a p not_a)) ∙ ca))
      | no not_b ↦
          inv.alone a b ha hb (ap is_critical (sym (update_ne s.pc i a p not_a)) ∙ ca)
            (ap is_critical (sym (update_ne s.pc i b p not_b)) ∙ cb)
    ]
  ]

  each_after : (j : ℕ) → j < n → Holds t (update s.pc i p j)
  each_after j hj = elim (ℕ_discrete i j) [
    | yes same ↦
        subst (λ k. Holds t (update s.pc i p k)) same
          (subst (Holds t) (sym (update_self s.pc i p))
            (Move-own move inv.locked (inv.each i hi)).0)
    | no other ↦
        subst (Holds t) (sym (update_ne s.pc i j p other))
          (Move-others (s.pc j) move (inv.each i hi) (inv.each j hj) (others_out j hj other))
  ]

  step-Inv : Inv n word (record { shared = t; pc = update s.pc i p })
  step-Inv = record {
    locked = (Move-own move inv.locked (inv.each i hi)).1;
    sum = Move-sum word move (inv.each i hi) inv.sum;
    each = each_after;
    alone = alone_after;
  }

Reach-Inv : {n word : ℕ} {s : System} → Reach n word s → Inv n word s
unfolding Holds applied is_critical
Reach-Inv start = record {
  locked = inl refl;
  sum = refl;
  each = λ i h. tt;
  alone = λ i j hi hj c d. ground arith;
}
Reach-Inv (later before (pick i h move)) = step-Inv i h move (Reach-Inv before)

-- In every reachable state of any number of threads at most one of two different threads is between
-- the swaps of the mutex, and the register holds what the stored updates, each applied in turn to the
-- one before, make of its first value: no update is lost.
pub updates_kept :
    (n word : ℕ) (s : System) (i j : ℕ)
    → i < n
    → j < n
    → i ≢ j
    → Reach n word s
    → ((is_critical (s.pc i) ≡ false) ⊎ (is_critical (s.pc j) ≡ false))
      × (s.shared.word ≡ applied word s.shared.log)
updates_kept n word s i j hi hj ne reach =
    let inv = Reach-Inv reach in
    (
      elim (Bool-cases (is_critical (s.pc i))) [
        | inl c ↦ inr (elim (Bool-cases (is_critical (s.pc j))) [
          | inl d ↦ absurd (ne (inv.alone i j hi hj c d))
          | inr out ↦ out
        ])
        | inr out ↦ inl out
      ],
      inv.sum,
    )
