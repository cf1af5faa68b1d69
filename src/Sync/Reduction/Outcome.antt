-- ===== src/Sync/Reduction/Outcome.antt =====
-- What the reduction leaves in the first cluster, whatever the order of the transfers and the additions
-- (sw/snRuntime/src/sync.h).
use snax_rebase.Base.{
  ℕ, zero, suc, ◌+◌, ◌-◌, ◌*◌, ◌/◌, ◌%◌, ◌^◌, ◌<◌, ◌≤◌, ◌≡◌, ◌≢◌, ◌⊎◌, refl, sym, subst, ◌∙◌, ap,
  true, false, ◌&&◌, not, ◌==◌, if◌then◌else◌, arith, dec_lt, ℕ_discrete, mod-eq_of_lt, Bool-cases,
  inl, inr,
}
use snax_rebase.Base.Memory.{update, update_self, update_ne}
use native.Mathlib.Nat.{pow-suc, one-le-pow, mod_self, zero-mod}
use native.Mathlib.Numerals.{add-one}
use snax_rebase.Sync.Reduction.{
  is_active, is_sender, Phase, sending, arrived, reducing, adding, progress, Reduction, System,
  sent, adds, Step, send, release, skip, read, write, Reach, start, later,
}

double : (l : ℕ) → 2 ^ (l + 1) ≡ 2 * 2 ^ l
double l = let e : l + 1 ≡ suc l = add-one l in rw e (omega (arith, pow-suc 2 l))

-- Of all clusters only `2 ^ level` sends to the first one at a level.
sends_to_first :
    (level n : ℕ)
    → (is_active level n && is_sender level n && 0 == n - 2 ^ level) ≡ (n == 2 ^ level)
unfolding is_active is_sender
sends_to_first level n = elim (dec_lt n (2 ^ level)) [
  | yes below ↦
      let narrow : n % 2 ^ level ≡ n = mod-eq_of_lt below in
      let wide : n % 2 ^ (level + 1) ≡ n = mod-eq_of_lt (omega (arith, double level)) in
      ground (arith, narrow, wide)
  | no above ↦ elim (ℕ_discrete n (2 ^ level)) [
    | yes same ↦
        let narrow : n % 2 ^ level ≡ 0 = ap (λ x. x % 2 ^ level) same ∙ mod_self (2 ^ level) in
        let wide : n % 2 ^ (level + 1) ≡ n =
          mod-eq_of_lt (omega (arith, double level, one-le-pow level 2 (omega arith))) in
        ground (arith, narrow, wide, one-le-pow level 2 (omega arith))
    | no other ↦ ground arith
  ]
]

not_first : (level : ℕ) → 2 ^ level ≢ 1 → 1 ≤ level
not_first zero ne = absurd (ne refl)
not_first (suc level) ne = omega arith

-- The first cluster receives at every level and never sends.
first_receives : (level : ℕ) → (is_active level 0 && not (is_sender level 0)) ≡ true
unfolding is_active is_sender
first_receives level = rw (zero-mod (2 ^ level), zero-mod (2 ^ (level + 1))) refl

module _ {A : Type 0} (r : Reduction A) where
  -- `x` with the source of the first cluster added to it `m` times
  unfoldable pub added : ℕ → A → A
  added zero x = x
  added (suc m) x = r.add (added m x) (r.src 0)

  adds_first : (level : ℕ) → adds r level 0 ≡ r.is_shared
  unfolding adds
  adds_first level = rw (first_receives level) refl

  sent_first :
      (level c : ℕ) (dst : ℕ → A)
      → sent r level c dst 0 ≡ (if c == 2 ^ level then r.src c else dst 0)
  unfolding sent
  sent_first level c dst = elim (Bool-cases (is_active level c && is_sender level c)) [
    | inl e ↦ rw (← sends_to_first level c, e) (ground arith)
    | inr e ↦ rw (← sends_to_first level c, e) refl
  ]

  -- The source of another cluster, with the first one's added to it at least `low` times, and not at
  -- all where the index is not shared
  abbrev pub Mixed : ℕ → A → Type 0
  Mixed low x =
      (level : ℕ) × (m : ℕ) × (level < r.levels)
      × (low ≤ m)
      × (x ≡ added m (r.src (2 ^ level)))
      × (r.is_shared ≡ false → m ≡ 0)

  record Inv (s : System A) : Type 0 where
    ahead : (d : ℕ) → d < r.clusters → progress (s.phase 0) / 2 * 2 ≤ progress (s.phase d) + 1
    mixed : 1 ≤ progress (s.phase 1) → Mixed 0 (s.dst 0)
    held : (level : ℕ) (old : A) → s.phase 0 ≡ adding level old → Mixed 0 old × (r.is_shared ≡ true)
    last : s.phase 0 ≡ sending r.levels → r.is_shared ≡ true → Mixed 1 (s.dst 0)

  -- A step of another cluster
  other :
      (s : System A) (c : ℕ) (p : Phase A) (dst : ℕ → A)
      → Inv s
      → c ≢ 0
      → progress (s.phase c) ≤ progress p
      → (1 ≤ progress (update s.phase c p 1) → Mixed 0 (dst 0))
      → (s.phase 0 ≡ sending r.levels → r.is_shared ≡ true → Mixed 1 (dst 0))
      → Inv (record { dst = dst; phase = update s.phase c p })
  other s c p dst inv ne further mixed last =
      let same = update_ne s.phase c 0 p ne in
      record {
        ahead = λ d h. rw same (elim (ℕ_discrete c d) [
          | yes e ↦
              subst (λ x. progress (s.phase 0) / 2 * 2 ≤ progress (update s.phase c p x) + 1) e
                (rw (update_self s.phase c p)
                  (omega (arith, further, inv.ahead c (subst (λ x. x < r.clusters) (sym e) h))))
          | no away ↦ rw (update_ne s.phase c d p away) (inv.ahead d h)
        ]);
        mixed = mixed;
        held = λ level old e. inv.held level old (sym same ∙ e);
        last = λ e shared. last (sym same ∙ e) shared;
      }

  -- A step of the first cluster
  first :
      (s : System A) (p : Phase A) (dst : ℕ → A)
      → Inv s
      → ((d : ℕ) → d < r.clusters → progress p / 2 * 2 ≤ progress (s.phase d) + 1)
      → (1 ≤ progress (s.phase 1) → Mixed 0 (dst 0))
      → ((level : ℕ) (old : A) → p ≡ adding level old → Mixed 0 old × (r.is_shared ≡ true))
      → (p ≡ sending r.levels → r.is_shared ≡ true → Mixed 1 (dst 0))
      → Inv (record { dst = dst; phase = update s.phase 0 p })
  first s p dst inv front mixed held last = record {
    ahead = λ d h. elim (ℕ_discrete 0 d) [
      | yes e ↦
          subst (λ x. progress p / 2 * 2 ≤ progress (update s.phase 0 p x) + 1) e (omega arith)
      | no away ↦ rw (update_ne s.phase 0 d p away) (front d h)
    ];
    mixed = mixed;
    held = held;
    last = last;
  }

  was_past :
      (phase : ℕ → Phase A) (c : ℕ) (p : Phase A)
      → 1 ≤ progress (phase c)
      → 1 ≤ progress (update phase c p 1)
      → 1 ≤ progress (phase 1)
  was_past phase c p past now = elim (ℕ_discrete c 1) [
    | yes e ↦ subst (λ x. 1 ≤ progress (phase x)) e past
    | no ne ↦ subst (λ q. 1 ≤ progress q) (update_ne phase c 1 p ne) now
  ]

  at_progress : {p q : Phase A} → p ≡ q → progress p ≡ progress q
  at_progress e = ap progress e

  -- The first cluster adds its own source once more.
  once_more :
      (low : ℕ) (old : A)
      → low ≤ 1
      → r.is_shared ≡ true
      → Mixed 0 old
      → Mixed low (r.add old (r.src 0))
  unfolding added
  once_more low old small shared (level, m, lt, le, e, none) = (
    level,
    suc m,
    lt,
    omega arith,
    ap (λ x. r.add x (r.src 0)) e,
    λ unshared. absurd (cc (shared, unshared)),
  )

  -- The transfer of another cluster to the first one
  sent_Mixed :
      (s : System A) (c level : ℕ)
      → Inv s
      → s.phase c ≡ sending level
      → level < r.levels
      → 1 ≤ progress (update s.phase c (arrived level) 1)
      → Mixed 0 (sent r level c s.dst 0)
  unfolding added
  sent_Mixed s c level inv at lt now = elim (ℕ_discrete c (2 ^ level)) [
    | yes e ↦ (level, 0, lt, omega arith, sent_first level c s.dst ∙ rw e (ground arith), λ _. refl)
    | no ne ↦ subst (Mixed 0) (sym (sent_first level c s.dst ∙ ground arith)) (
        inv.mixed (elim (ℕ_discrete c 1) [
          | yes one ↦
              subst (λ x. 1 ≤ progress (s.phase x)) one
                (omega (arith, at_progress at, not_first level (λ e. ne (one ∙ sym e))))
          | no away ↦ subst (λ q. 1 ≤ progress q) (update_ne s.phase c 1 (arrived level) away) now
        ]))
  ]

  sent_last :
      (s : System A) (c level : ℕ)
      → Inv s
      → c < r.clusters
      → s.phase c ≡ sending level
      → level < r.levels
      → s.phase 0 ≡ sending r.levels
      → r.is_shared ≡ true
      → Mixed 1 (sent r level c s.dst 0)
  sent_last s c level inv h at lt done shared =
      absurd (omega (arith, inv.ahead c h, at_progress at, at_progress done))

  keep : (s t : System A) → 1 < r.clusters → Inv s → Step r s t → Inv t
  keep s _ more inv (send zero level h at lt) =
      first s (arrived level) (sent r level 0 s.dst) inv
        (λ d hd. omega (arith, inv.ahead d hd, at_progress at))
        (λ past.
          subst (Mixed 0)
            (sym (sent_first level 0 s.dst ∙ ground (arith, one-le-pow level 2 (omega arith))))
            (inv.mixed past))
        (λ l old e. cc) (λ e shared. cc)
  keep s _ more inv (send (suc c) level h at lt) =
      other s (suc c) (arrived level) (sent r level (suc c) s.dst) inv (omega arith)
        (omega (arith, at_progress at)) (sent_Mixed s (suc c) level inv at lt)
        (sent_last s (suc c) level inv h at lt)
  keep s _ more inv (release zero level h at all) =
      first s (reducing level) s.dst inv (λ d hd. omega (arith, all d hd)) inv.mixed (λ l old e. cc)
        (λ e shared. cc)
  keep s _ more inv (release (suc c) level h at all) =
      other s (suc c) (reducing level) s.dst inv (omega arith) (omega (arith, at_progress at))
        (λ now.
          inv.mixed (was_past s.phase (suc c) (reducing level) (omega (arith, at_progress at)) now))
        inv.last
  keep s _ more inv (skip zero level h at idle) =
      first s (sending (level + 1)) s.dst inv
        (λ d hd. omega (arith, inv.ahead d hd, at_progress at)) inv.mixed (λ l old e. cc)
        (λ e shared. absurd (cc (idle, shared, adds_first level)))
  keep s _ more inv (skip (suc c) level h at idle) =
      other s (suc c) (sending (level + 1)) s.dst inv (omega arith) (omega (arith, at_progress at))
        (λ now.
          inv.mixed
            (was_past s.phase (suc c) (sending (level + 1)) (omega (arith, at_progress at)) now))
        inv.last
  keep s _ more inv (read zero level h at busy) =
      let seen = inv.mixed (omega (arith, inv.ahead 1 more, at_progress at)) in
      first s (adding level (s.dst 0)) s.dst inv
        (λ d hd. omega (arith, inv.ahead d hd, at_progress at)) inv.mixed
        (λ l old e. (subst (Mixed 0) (cc) seen, sym (adds_first level) ∙ busy)) (λ e shared. cc)
  keep s _ more inv (read (suc c) level h at busy) =
      other s (suc c) (adding level (s.dst (suc c))) s.dst inv (omega arith)
        (omega (arith, at_progress at))
        (λ now. inv.mixed (
          was_past s.phase (suc c) (adding level (s.dst (suc c))) (omega (arith, at_progress at))
            now))
        inv.last
  keep s _ more inv (write zero level old h at) =
      let (seen, shared) = inv.held level old at in
      first s (sending (level + 1)) (update s.dst 0 (r.add old (r.src 0))) inv
        (λ d hd. omega (arith, inv.ahead d hd, at_progress at))
        (λ past. once_more 0 old (omega arith) shared seen) (λ l x e. cc)
        (λ e _. once_more 1 old (omega arith) shared seen)
  keep s _ more inv (write (suc c) level old h at) =
      let same = update_ne s.dst (suc c) 0 (r.add old (r.src (suc c))) (omega arith) in
      other s (suc c) (sending (level + 1)) (update s.dst (suc c) (r.add old (r.src (suc c)))) inv
        (omega arith) (omega (arith, at_progress at))
        (λ now. subst (Mixed 0) (sym same) (
          inv.mixed
            (was_past s.phase (suc c) (sending (level + 1)) (omega (arith, at_progress at)) now)))
        (λ e shared. subst (Mixed 1) (sym same) (inv.last e shared))

  reach-Inv : (dst : ℕ → A) (s : System A) → 1 < r.clusters → 0 < r.levels → Reach r dst s → Inv s
  reach-Inv dst _ more some start = record {
    ahead = λ d h. omega arith;
    mixed = λ past. absurd (omega arith);
    held = λ level old e. cc;
    last = λ e shared.
        let none_yet : ◌≡◌ {A = ℕ} (2 * 0) (2 * r.levels) = at_progress e in
        absurd (omega (arith, none_yet, some));
  }
  reach-Inv dst t more some (later {s = s} before step) =
      keep s t more (reach-Inv dst s more some before) step

  finished :
      (x : A)
      → Mixed 0 x
      → (r.is_shared ≡ true → Mixed 1 x)
      → (level : ℕ) × (m : ℕ) × (level < r.levels)
        × (x ≡ added m (r.src (2 ^ level)))
        × (((r.is_shared ≡ true) × (1 ≤ m)) ⊎ ((r.is_shared ≡ false) × (m ≡ 0)))
  finished x some last = elim (Bool-cases r.is_shared) [
    | inl shared ↦
        let (level, m, lt, le, e, none) = last shared in (level, m, lt, e, inl (shared, le))
    | inr unshared ↦
        let (level, m, lt, le, e, none) = some in (level, m, lt, e, inr (unshared, none unshared))
  ]

  -- With more than one cluster and at least one level, whatever the order of the transfers, reads and
  -- writes of the clusters: when the first cluster is through with the last level, its element is the
  -- source of one other cluster, `2 ^ level` for one of the levels, to which nothing but its own source
  -- has been added, at least once at an index that the compute cores share, and not at all at the
  -- others. So of the sources of all other clusters nothing is left.
  pub reduction_keeps_one :
      (dst : ℕ → A) (s : System A)
      → 1 < r.clusters
      → 0 < r.levels
      → Reach r dst s
      → s.phase 0 ≡ sending r.levels
      → (level : ℕ) × (m : ℕ) × (level < r.levels)
        × (s.dst 0 ≡ added m (r.src (2 ^ level)))
        × (((r.is_shared ≡ true) × (1 ≤ m)) ⊎ ((r.is_shared ≡ false) × (m ≡ 0)))
  reduction_keeps_one dst s more some reach done =
      let inv = reach-Inv dst s more some reach in
      finished (s.dst 0) (inv.mixed (omega (arith, inv.ahead 1 more, at_progress done, some)))
        (inv.last done)
