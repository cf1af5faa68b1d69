-- ===== src/Examples/Reductions.antt =====
-- The reduction over three clusters at one index of the buffers (sw/snRuntime/src/sync.h).
use snax_rebase.Base.{
  ℕ, ◌+◌, ◌*◌, ◌^◌, ◌<◌, ◌≤◌, ◌≡◌, ◌⊎◌, refl, Bool, true, false, arith, suc, zero,
}
use snax_rebase.Base.Memory.{update}
use snax_rebase.Sync.Reduction.{
  Reduction, reduction_at, System, sending, arrived, sent, adds, Step, send, release, skip, read,
  write, Reach, start, later,
}
use snax_rebase.Sync.Reduction.Ending.{behind, reduction_ends}
use snax_rebase.Sync.Reduction.Outcome.{added, reduction_keeps_one}

-- Index 3 of buffers with 8 elements, on 8 compute cores; the source of cluster `c` holds `10 ^ c`.
abbrev three : Reduction ℕ
three = reduction_at ◌+◌ 3 2 8 8 (λ c k. 10 ^ c) 3

abbrev none_yet : ℕ → ℕ
none_yet c = 0

first_adds : (level : ℕ) → level < 2 → adds three level 0 ≡ true
unfolding adds
first_adds zero h = refl
first_adds (suc zero) h = refl
first_adds (suc (suc level)) h = absurd (omega arith)

second_sent : adds three 0 1 ≡ false
unfolding adds
second_sent = refl

third_adds : adds three 0 2 ≡ true
unfolding adds
third_adds = refl

all_three : (P : ℕ → Type 0) → P 0 → P 1 → P 2 → (d : ℕ) → d < 3 → P d
all_three P p q r zero h = p
all_three P p q r (suc zero) h = q
all_three P p q r (suc (suc zero)) h = r
all_three P p q r (suc (suc (suc d))) h = absurd (omega arith)

-- The third cluster sends at the second level before the first one has added at the first level.
abbrev early_send : (s : System ℕ) × Reach three none_yet s
early_send = (
  _,
  later
      (later
        (later
          (later
            (later
              (later (later start (send 1 0 (omega arith) refl (omega arith)))
                (send 0 0 (omega arith) refl (omega arith)))
              (send 2 0 (omega arith) refl (omega arith)))
            (release 2 0 (omega arith) refl
              (all_three _ (omega arith) (omega arith) (omega arith))))
          (read 2 0 (omega arith) refl third_adds))
        (write 2 0 _ (omega arith) refl))
      (send 2 1 (omega arith) refl (omega arith)),
)

abbrev done_run : (s : System ℕ) × Reach three none_yet s
done_run = (
  _,
  later
      (later
        (later
          (later
            (later
              (later
                (later
                  (later
                    (later
                      (later early_send.1 (
                        release 0 0 (omega arith) refl
                          (all_three _ (omega arith) (omega arith) (omega arith))))
                      (read 0 0 (omega arith) refl (first_adds 0 (omega arith))))
                    (write 0 0 _ (omega arith) refl))
                  (send 0 1 (omega arith) refl (omega arith)))
                (release 1 0 (omega arith) refl
                  (all_three _ (omega arith) (omega arith) (omega arith))))
              (skip 1 0 (omega arith) refl second_sent))
            (send 1 1 (omega arith) refl (omega arith)))
          (release 0 1 (omega arith) refl (all_three _ (omega arith) (omega arith) (omega arith))))
        (read 0 1 (omega arith) refl (first_adds 1 (omega arith))))
      (write 0 1 _ (omega arith) refl),
)

reduction_keeps_one_example :
    (level : ℕ) × (m : ℕ) × (level < 2)
    × (done_run.0.dst 0 ≡ added three m (10 ^ 2 ^ level))
    × ((◌≡◌ {A = Bool} true true × (1 ≤ m)) ⊎ (◌≡◌ {A = Bool} true false × (m ≡ 0)))
reduction_keeps_one_example =
    reduction_keeps_one three none_yet (done_run.0) (omega arith) (omega arith) (done_run.1) refl

-- The first step: the second cluster sends.
abbrev one_sent : System ℕ
one_sent = record { dst = sent three 0 1 none_yet; phase = update (λ _. sending 0) 1 (arrived 0) }

reduction_ends_example :
    (behind three (record { dst = none_yet; phase = λ _. sending 0 }) < behind three one_sent)
    × (behind three one_sent ≤ 3 * (4 * 2))
    × ((one_sent.phase 0 ≡ sending 2) ⊎ ((u : System ℕ) × Step three one_sent u))
reduction_ends_example =
    reduction_ends three none_yet _ one_sent (omega arith) start
      (send 1 0 (omega arith) refl (omega arith))
