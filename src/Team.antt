-- ===== src/Team.antt =====
-- sw/snRuntime/src/team.h: which cluster and core a hart is, from its hart id.
pub mod Index
use snax_rebase.Base.{ℕ, ◌*◌, ◌/◌, ◌%◌, Bool, not, ltb}
use snax_rebase.Base.Words.{add_u32, sub_u32, mul_u32}

-- The numbers of the generated configuration header.
pub record Config : Type 0 where
  pub base_hartid : ℕ
  pub cluster_num : ℕ
  pub cluster_core_num : ℕ
  pub cluster_dm_core_num : ℕ

module _ (c : Config) where
  unfoldable pub global_core_num : ℕ
  global_core_num = mul_u32 c.cluster_num c.cluster_core_num

  unfoldable pub cluster_compute_core_num : ℕ
  cluster_compute_core_num = sub_u32 c.cluster_core_num c.cluster_dm_core_num

  unfoldable pub global_compute_core_num : ℕ
  unfolding cluster_compute_core_num
  global_compute_core_num = mul_u32 c.cluster_num cluster_compute_core_num

  unfoldable pub global_core_idx : ℕ → ℕ
  global_core_idx hartid = sub_u32 hartid c.base_hartid

  unfoldable pub cluster_idx : ℕ → ℕ
  unfolding global_core_idx
  cluster_idx hartid = global_core_idx hartid / c.cluster_core_num

  unfoldable pub cluster_core_idx : ℕ → ℕ
  unfolding global_core_idx
  cluster_core_idx hartid = global_core_idx hartid % c.cluster_core_num

  unfoldable pub global_compute_core_idx : ℕ → ℕ
  unfolding cluster_idx cluster_core_idx cluster_compute_core_num
  global_compute_core_idx hartid =
      add_u32 (mul_u32 (cluster_idx hartid) cluster_compute_core_num) (cluster_core_idx hartid)

  unfoldable pub is_compute_core : ℕ → Bool
  unfolding cluster_core_idx cluster_compute_core_num
  is_compute_core hartid = ltb (cluster_core_idx hartid) cluster_compute_core_num

  unfoldable pub is_dm_core : ℕ → Bool
  unfolding is_compute_core
  is_dm_core hartid = not (is_compute_core hartid)
