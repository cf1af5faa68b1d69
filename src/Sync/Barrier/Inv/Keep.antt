-- ===== src/Sync/Barrier/Inv/Keep.antt =====
-- Every access keeps the invariant of the barrier of sw/snRuntime/src/sync.h.
use snax_rebase.Base.{ℕ, ◌+◌, ◌≤◌, ◌<◌, ◌≡◌, false, inl, inr, refl, ◌==◌, arith, Bool-cases, ◌∙◌}
use snax_rebase.Base.Family.{count, count-update, count_member, count_full, count_zero}
use snax_rebase.Base.Memory.{update}
use snax_rebase.Base.Words.{add_u32}
use snax_rebase.Sync.Barrier.{
  Barrier, Pc, outside, entered, last, cleared, waiting, Move, enter, arrive, arrive_last, clear,
  release, spin, leave,
}
use snax_rebase.Sync.Barrier.Inv.Defs.{Phase, arrived, is_last, is_cleared, Counts, Inv}

arrived_unit : (e : ℕ) (a : Pc) → arrived e a ≤ 1
arrived_unit e a = ground arith

module _ {n e : ℕ} {b : Barrier} {pc : ℕ → Pc} (inv : Inv n e b pc) (i : ℕ) (lt : i < n) where
  open inv use {some_threads, few, open_round, phase, counts}

  abbrev all_of : (ℕ → Pc) → ℕ
  all_of f = count (arrived e) n f

  abbrev lasts_of : (ℕ → Pc) → ℕ
  lasts_of f = count is_last n f

  abbrev clears_of : (ℕ → Pc) → ℕ
  clears_of f = count is_cleared n f

  -- What the replacement of the thread's `p` by `p'` does to the counts.
  record Change (p p' : Pc) : Type 0 where
    own : Phase e p
    alls : all_of (update pc i p') + arrived e p ≡ all_of pc + arrived e p'
    lasts : lasts_of (update pc i p') + is_last p ≡ lasts_of pc + is_last p'
    clears : clears_of (update pc i p') + is_cleared p ≡ clears_of pc + is_cleared p'
    bound : all_of pc + 1 ≤ n + arrived e p
    one_last : is_last p ≤ lasts_of pc
    one_clear : is_cleared p ≤ clears_of pc

  change : (p' : Pc) → Change (pc i) p'
  change p' = record {
    own = phase i lt;
    alls = count-update (arrived e) n pc i p' lt;
    lasts = count-update is_last n pc i p' lt;
    clears = count-update is_cleared n pc i p' lt;
    bound = count_full (arrived e) (arrived_unit e) n pc i lt;
    one_last = count_member is_last n pc i lt;
    one_clear = count_member is_cleared n pc i lt;
  }

  Move-counts :
      {p p' : Pc} {b' : Barrier}
      → Move n b p b' p'
      → b'.iteration ≡ b.iteration
      → Change p p'
      → Counts n b'.cnt
          (all_of (update pc i p'))
          (lasts_of (update pc i p'))
          (clears_of (update pc i p'))
  Move-counts enter same c = ground arith
  Move-counts (arrive ne) same c = ground (arith, ne)
  Move-counts (arrive_last eq) same c = ground (arith, eq)
  Move-counts clear same c = ground arith
  Move-counts release same c = absurd (omega arith)
  Move-counts (spin eq) same c = ground (arith, eq)
  Move-counts (leave ne) same c = ground (arith, ne)

  Move-phase :
      {p p' : Pc} {b' : Barrier}
      → Move n b p b' p'
      → b'.iteration ≡ b.iteration
      → Phase e p
      → Phase e p'
  Move-phase enter same own = (own, open_round)
  Move-phase (arrive ne) same own = inl own
  Move-phase (arrive_last eq) same own = own.0
  Move-phase clear same own = own
  Move-phase release same own = absurd (omega arith)
  Move-phase (spin eq) same own = own
  Move-phase (leave ne) same own = ground (arith, ne)

  phase_update : (p' : Pc) → Phase e p' → (j : ℕ) → j < n → Phase e (update pc i p' j)
  phase_update p' h j jlt = elim (Bool-cases (i == j)) [
    | inl eq ↦ rw eq h
    | inr ne ↦ rw ne (phase j jlt)
  ]

  -- A thread that is counted in the open round and only waits is behind once the round is over.
  turned :
      (q : Pc)
      → Phase e q
      → arrived e q ≡ 1
      → is_last q ≡ 0
      → is_cleared q ≡ 0
      → Phase (e + 1) q × (arrived (e + 1) q ≡ 0)
  turned (outside r) h a l c = absurd (omega (arith, a))
  turned (entered r p) h a l c = absurd (omega (arith, a))
  turned (last r) h a l c = absurd (omega (arith, l))
  turned (cleared r) h a l c = absurd (omega (arith, c))
  turned (waiting r p) h a l c = (inr (ground (arith, a)), ground (arith, a))

  module _ {r : ℕ} (c : Change (cleared r) (outside (r + 1))) where
    abbrev after : ℕ → Pc
    after = update pc i (outside (r + 1))

    quiet : (lasts_of pc ≡ 0) × (clears_of after ≡ 0) × (all_of pc ≡ n)
    quiet = omega (arith, counts.complete)

    other : (j : ℕ) → j < n → (i == j) ≡ false → Phase (e + 1) (pc j) × (arrived (e + 1) (pc j) ≡ 0)
    other j jlt ne =
        let full = count_full (arrived e) (arrived_unit e) n pc j jlt in
        let cleared_j : is_cleared (pc j) ≤ clears_of after =
          ne_at (count_member is_cleared n after j jlt) in
        turned (pc j) (phase j jlt) (omega (arith, quiet, full, arrived_unit e (pc j)))
          (omega (arith, quiet, count_member is_last n pc j jlt)) (omega (arith, quiet, cleared_j))
      where
        ne_at : is_cleared (after j) ≤ clears_of after → is_cleared (pc j) ≤ clears_of after
        ne_at h = rw ne at h

    released : (j : ℕ) → j < n → Phase (e + 1) (after j) × (arrived (e + 1) (after j) ≡ 0)
    released j jlt = elim (Bool-cases (i == j)) [
      | inl eq ↦ rw eq (omega (arith, c.own), refl)
      | inr ne ↦ rw ne (other j jlt ne)
    ]

    release-Inv : Inv n (e + 1) (record b { iteration = add_u32 b.iteration 1 }) after
    release-Inv = record {
      some_threads = some_threads;
      few = few;
      open_round = omega (arith, open_round);
      phase = λ j jlt. (released j jlt).0;
      counts =
          let none_yet = count_zero (arrived (e + 1)) n after (λ j jlt. (released j jlt).1) in
          ground (arith, none_yet, quiet, c.lasts);
    }

  keep-Inv :
      {p p' : Pc} {b' : Barrier}
      → Move n b p b' p'
      → b'.iteration ≡ b.iteration
      → Change p p'
      → Inv n e b' (update pc i p')
  keep-Inv {p' = p'} mv same c = record {
    some_threads = some_threads;
    few = few;
    open_round = same ∙ open_round;
    phase = phase_update p' (Move-phase mv same c.own);
    counts = Move-counts mv same c;
  }

  some-Inv :
      {p p' : Pc} {b' : Barrier}
      → Move n b p b' p'
      → Change p p'
      → (e' : ℕ) × Inv n e' b' (update pc i p')
  some-Inv enter c = (e, keep-Inv enter refl c)
  some-Inv (arrive ne) c = (e, keep-Inv (arrive ne) refl c)
  some-Inv (arrive_last eq) c = (e, keep-Inv (arrive_last eq) refl c)
  some-Inv clear c = (e, keep-Inv clear refl c)
  some-Inv release c = (e + 1, release-Inv c)
  some-Inv (spin eq) c = (e, keep-Inv (spin eq) refl c)
  some-Inv (leave ne) c = (e, keep-Inv (leave ne) refl c)

-- Every access of a thread keeps the invariant; the increment of `iteration` opens the next round.
pub Move-Inv :
    {n e : ℕ} {b : Barrier} {pc : ℕ → Pc}
    → Inv n e b pc
    → (i : ℕ) → i < n
    → {p' : Pc} {b' : Barrier} → Move n b (pc i) b' p'
    → (e' : ℕ) × Inv n e' b' (update pc i p')
Move-Inv inv i lt {p'} mv = some-Inv inv i lt mv (change inv i lt p')
