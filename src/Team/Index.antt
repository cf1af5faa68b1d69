-- ===== src/Team/Index.antt =====
-- The compute cores are numbered without gaps or clashes (sw/snRuntime/src/team.h).
use snax_rebase.Base.{ℕ, ◌+◌, ◌-◌, ◌*◌, ◌^◌, ◌≤◌, ◌<◌, ◌≡◌, ◌≢◌, true, arith, ltb→lt, ap₂, sym, ◌∙◌}
use native.Mathlib.Nat.{div-add-mod', div-lt_iff_lt-mul}
use snax_rebase.Base.Grid.{row_unique}
use snax_rebase.Team.{
  Config, cluster_compute_core_num, global_compute_core_num, global_core_idx, cluster_idx,
  cluster_core_idx, global_compute_core_idx, is_compute_core,
}

-- The counts fit a word, and a cluster has cores that are not data movers.
pub record IsSane (c : Config) : Type 0 where
  pub some_compute : c.cluster_dm_core_num < c.cluster_core_num
  pub fits : c.cluster_num * c.cluster_core_num < 2 ^ 32
  pub some_cluster : 0 < c.cluster_num

-- The hart is one of the system's cores.
abbrev pub Present : Config → ℕ → Type 0
Present c hartid =
    (c.base_hartid ≤ hartid)
    × (hartid < c.base_hartid + c.cluster_num * c.cluster_core_num)
    × (hartid < 2 ^ 32)

le-mul_left : (a b : ℕ) → 0 < a → b ≤ a * b
le-mul_left a b h = grind arith

row-lt : (i j m n : ℕ) → i < m → j < n → i * n + j < m * n
row-lt i j m n p q = grind arith

mul_mono : (a b c : ℕ) → b ≤ c → a * b ≤ a * c
mul_mono a b c h = grind arith

mul_mono' : (a b c : ℕ) → a < b → a * c ≤ b * c
mul_mono' a b c h = grind arith

module _ (c : Config) (sane : IsSane c) where
  open c use {base_hartid, cluster_num, cluster_core_num, cluster_dm_core_num}

  core_num-lt : cluster_core_num < 2 ^ 32
  core_num-lt = omega (arith, sane.fits, le-mul_left cluster_num cluster_core_num sane.some_cluster)

  pub compute_num : cluster_compute_core_num c ≡ cluster_core_num - cluster_dm_core_num
  unfolding cluster_compute_core_num
  compute_num = omega (arith, sane.some_compute, core_num-lt)

  pub core_idx : (h : ℕ) → Present c h → global_core_idx c h ≡ h - base_hartid
  unfolding global_core_idx
  core_idx h p = omega (arith, sane.fits)

  cluster_idx-lt : (h : ℕ) → Present c h → cluster_idx c h < cluster_num
  unfolding cluster_idx
  cluster_idx-lt h p =
      rw (core_idx h p) ((div-lt_iff_lt-mul (omega (arith, sane.some_compute))).1 (omega arith))

  pub compute_core-lt :
      (h : ℕ) → is_compute_core c h ≡ true → cluster_core_idx c h < cluster_compute_core_num c
  unfolding is_compute_core
  compute_core-lt h e = ltb→lt _ _ e

  -- Neither the product nor the sum of `snrt_global_compute_core_idx` wraps.
  compute_idx_lem :
      (h : ℕ)
      → Present c h
      → is_compute_core c h ≡ true
      → (global_compute_core_idx c h
          ≡ cluster_idx c h * cluster_compute_core_num c + cluster_core_idx c h)
        × (global_compute_core_idx c h < cluster_num * cluster_compute_core_num c)
        × (cluster_num * cluster_compute_core_num c < 2 ^ 32)
  unfolding global_compute_core_idx
  compute_idx_lem h p e =
      let lt = row-lt _ _ _ _ (cluster_idx-lt h p) (compute_core-lt h e) in
      let small =
        mul_mono cluster_num (cluster_compute_core_num c) cluster_core_num
          (omega (arith, compute_num)) in
      let inner = mul_mono' _ cluster_num (cluster_compute_core_num c) (cluster_idx-lt h p) in
      omega (arith, lt, small, inner, sane.fits)

  -- The hart id is determined by the cluster and the core.
  pub position_lem :
      (h : ℕ)
      → Present c h
      → base_hartid + cluster_idx c h * cluster_core_num + cluster_core_idx c h ≡ h
  unfolding cluster_idx cluster_core_idx
  position_lem h p =
      omega (arith, div-add-mod' (global_core_idx c h) cluster_core_num, core_idx h p)

  -- With counts that fit a word and at least one compute core per cluster: among the cores of the
  -- system `snrt_global_compute_core_idx` gives every compute core an index
  -- below `snrt_global_compute_core_num`, and no index to two of them.
  pub compute_idx_numbers :
      (a b : ℕ)
      → Present c a
      → Present c b
      → is_compute_core c a ≡ true
      → is_compute_core c b ≡ true
      → a ≢ b
      → (global_compute_core_idx c a < global_compute_core_num c)
        × (global_compute_core_idx c a ≢ global_compute_core_idx c b)
  unfolding global_compute_core_num
  compute_idx_numbers a b pa pb ea eb ne = (
    omega (arith, compute_idx_lem a pa ea),
    λ e.
        let same =
          row_unique _ _ _ _ _ (compute_core-lt a ea) (compute_core-lt b eb)
            (sym (compute_idx_lem a pa ea).0 ∙ e ∙ (compute_idx_lem b pb eb).0) in
        ne (
          sym (position_lem a pa)
          ∙ ap₂ (λ x y. base_hartid + x * cluster_core_num + y) same.0 same.1
          ∙ position_lem b pb),
  )
