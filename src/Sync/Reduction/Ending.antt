-- ===== src/Sync/Reduction/Ending.antt =====
-- The reduction comes to an end, whatever the order of its steps (sw/snRuntime/src/sync.h).
use snax_rebase.Base.{
  ℕ, zero, suc, ◌+◌, ◌-◌, ◌*◌, ◌<◌, ◌≤◌, ◌≡◌, ◌⊎◌, refl, ap, arith, dec_lt, dec_le, Bool-cases, inl,
  inr,
}
use snax_rebase.Base.Family.{count, count-update, count_bound}
use snax_rebase.Base.Memory.{update, update-each}
use snax_rebase.Sync.Reduction.{
  Phase, sending, arrived, reducing, adding, progress, Reduction, System, adds, Step, send, release,
  skip, read, write, Reach, start, later,
}

-- A member with the smallest value
lowest : (n : ℕ) (f : ℕ → ℕ) → (c : ℕ) × (c < suc n) × ((d : ℕ) → d < suc n → f c ≤ f d)
lowest zero f = (0, omega arith, λ d h. let e : d ≡ 0 = omega arith in rw e (omega arith))
lowest (suc n) f =
    let (c, h, least) = lowest n f in
    elim (dec_le (f c) (f (suc n))) [
      | yes le ↦ (
        c,
        omega arith,
        λ d hd. elim (dec_lt d (suc n)) [
          | yes below ↦ least d below
          | no last ↦ let e : d ≡ suc n = omega arith in rw e le
        ],
      )
      | no gt ↦ (
        suc n,
        omega arith,
        λ d hd. elim (dec_lt d (suc n)) [
          | yes below ↦ omega (arith, least d below)
          | no last ↦ let e : d ≡ suc n = omega arith in rw e (omega arith)
        ],
      )
    ]

-- The steps that a cluster has behind it, at most
abbrev pub steps : {A : Type 0} → Phase A → ℕ
steps (sending level) = 4 * level
steps (arrived level) = 4 * level + 1
steps (reducing level) = 4 * level + 2
steps (adding level old) = 4 * level + 3

module _ {A : Type 0} (r : Reduction A) where
  abbrev pub behind : System A → ℕ
  behind s = count steps r.clusters s.phase

  grows :
      (s : System A) (c : ℕ) (p q : Phase A)
      → c < r.clusters
      → s.phase c ≡ q
      → steps q < steps p
      → behind s < count steps r.clusters (update s.phase c p)
  grows s c p q h at more =
      omega (arith, count-update steps r.clusters s.phase c p h, ap steps at, more)

  step_grows : (s t : System A) → Step r s t → behind s < behind t
  step_grows s _ (send c level h at lt) = grows s c _ _ h at (omega arith)
  step_grows s _ (release c level h at all) = grows s c _ _ h at (omega arith)
  step_grows s _ (skip c level h at idle) = grows s c _ _ h at (omega arith)
  step_grows s _ (read c level h at busy) = grows s c _ _ h at (omega arith)
  step_grows s _ (write c level old h at) = grows s c _ _ h at (omega arith)

  -- No cluster goes past the last level.
  abbrev Within : (ℕ → Phase A) → Type 0
  Within phase = (d : ℕ) → steps (phase d) ≤ 4 * r.levels

  moved :
      (phase : ℕ → Phase A) (c : ℕ) (p : Phase A)
      → Within phase
      → steps p ≤ 4 * r.levels
      → Within (update phase c p)
  moved phase c p within le d =
      update-each (λ _ q. steps q ≤ 4 * r.levels) phase c p d le (within d)

  step-Within : (s t : System A) → Step r s t → Within s.phase → Within t.phase
  step-Within s _ (send c level h at lt) w = moved s.phase c _ w (omega arith)
  step-Within s _ (release c level h at all) w =
      moved s.phase c _ w (omega (arith, w c, ap steps at))
  step-Within s _ (skip c level h at idle) w = moved s.phase c _ w (omega (arith, w c, ap steps at))
  step-Within s _ (read c level h at busy) w = moved s.phase c _ w (omega (arith, w c, ap steps at))
  step-Within s _ (write c level old h at) w = moved s.phase c _ w (omega (arith, w c, ap steps at))

  reach-Within : (dst : ℕ → A) (s : System A) → Reach r dst s → Within s.phase
  reach-Within dst _ start = λ d. omega arith
  reach-Within dst t (later {s = s} before step) = step-Within s t step (reach-Within dst s before)

  -- A cluster that is not through can take a step, if all have arrived where it waits in the barrier.
  free_step :
      (s : System A) (c : ℕ) (p : Phase A)
      → c < r.clusters
      → s.phase c ≡ p
      → steps p < 4 * r.levels
      → ((level : ℕ)
          → p ≡ arrived level
          → (d : ℕ) → d < r.clusters
          → 2 * level + 1 ≤ progress (s.phase d))
      → (t : System A) × Step r s t
  free_step s c (sending level) h at lt open_now = (_, send c level h at (omega (arith, lt)))
  free_step s c (arrived level) h at lt open_now = (_, release c level h at (open_now level refl))
  free_step s c (reducing level) h at lt open_now = elim (Bool-cases (adds r level c)) [
    | inl busy ↦ (_, read c level h at busy)
    | inr idle ↦ (_, skip c level h at idle)
  ]
  free_step s c (adding level old) h at lt open_now = (_, write c level old h at)

  arrived_too : (q : Phase A) (level : ℕ) → 4 * level + 1 ≤ steps q → 2 * level + 1 ≤ progress q
  arrived_too (sending l) level h = omega arith
  arrived_too (arrived l) level h = omega arith
  arrived_too (reducing l) level h = omega arith
  arrived_too (adding l old) level h = omega arith

  through : (q : Phase A) → steps q ≡ 4 * r.levels → q ≡ sending r.levels
  through (sending l) h = ap sending (omega arith)
  through (arrived l) h = absurd (omega arith)
  through (reducing l) h = absurd (omega arith)
  through (adding l old) h = absurd (omega arith)

  -- The cluster with the fewest steps behind it can take one.
  some_step :
      (s : System A)
      → 0 < r.clusters
      → Within s.phase
      → (s.phase 0 ≡ sending r.levels) ⊎ ((t : System A) × Step r s t)
  some_step s some within = elim (dec_lt (steps (s.phase 0)) (4 * r.levels)) [
    | no over ↦ inl (through (s.phase 0) (omega (arith, within 0)))
    | yes under ↦
        let (c, h, least) = lowest (r.clusters - 1) (λ d. steps (s.phase d)) in
        inr (
          free_step s c (s.phase c) (omega arith) refl (omega (arith, least 0 (omega arith)))
            (λ level at d hd.
              arrived_too (s.phase d) level (omega (arith, least d (omega arith), ap steps at))))
  ]

  -- From every reachable state a step of a cluster adds to the steps behind the clusters, four for each
  -- level at most, which never exceed four times the number of levels for each cluster; and after it
  -- the first cluster is through with the last level, or a step is possible. So every order of the steps
  -- ends with the first cluster through.
  pub reduction_ends :
      (dst : ℕ → A) (s t : System A)
      → 0 < r.clusters
      → Reach r dst s
      → Step r s t
      → (behind s < behind t)
        × (behind t ≤ r.clusters * (4 * r.levels))
        × ((t.phase 0 ≡ sending r.levels) ⊎ ((u : System A) × Step r t u))
  reduction_ends dst s t some reach step =
      let within = reach-Within dst t (later reach step) in
      (
        step_grows s t step,
        count_bound steps r.clusters t.phase (4 * r.levels) within,
        some_step t some within,
      )
