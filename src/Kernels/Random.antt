-- ===== src/Kernels/Random.antt =====
-- The random numbers of sw/apps/prng/lcg.h, and the estimate of pi that sw/apps/montecarlo/pi_estimation
-- draws from them on the compute cores of a cluster.
pub mod Leapfrog
pub mod Samples
use snax_rebase.Base.{ℕ, ◌+◌, ◌*◌, ◌/◌, ◌^◌, Bool, if◌then◌else◌}
use snax_rebase.Base.Loops.{loop}
use snax_rebase.Base.Words.{u32, add_u32, mul_u32}
use snax_rebase.Kernels.Float.{Float}

-- `LCG_A`, `LCG_C` and `N_SAMPLES`
abbrev pub lcg_a : ℕ
lcg_a = 1664525

abbrev pub lcg_c : ℕ
lcg_c = 1013904223

abbrev pub n_samples : ℕ
n_samples = 1024

-- The outputs `Ap` and `Cp` of `leapfrog_constants`
pub record Constants : Type 0 where
  pub ap : ℕ
  pub cp : ℕ

unfoldable pub leapfrog_loop : ℕ → ℕ → Constants
leapfrog_loop num_sequences a =
    loop num_sequences (λ p s. record { ap = mul_u32 s.ap a; cp = add_u32 s.cp s.ap })
      (record { ap = 1; cp = 0 })

unfoldable pub leapfrog_constants : ℕ → ℕ → ℕ → Constants
leapfrog_constants num_sequences a c =
    let s = leapfrog_loop num_sequences a in record s { cp = mul_u32 s.cp c }

unfoldable pub right_seed : ℕ → ℕ → ℕ → ℕ → ℕ
right_seed left_seed a c sequence_idx =
    loop sequence_idx (λ p seed. add_u32 (mul_u32 seed a) c) left_seed

unfoldable pub lcg : ℕ → ℕ → ℕ → ℕ
lcg a c previous = add_u32 (mul_u32 previous a) c

-- The outputs of `init_2d_lcg_params`
pub record Params : Type 0 where
  pub seed0 : ℕ
  pub seed1 : ℕ
  pub constants : Constants

-- `idx` is `snrt_global_compute_core_idx()`.
unfoldable pub init_2d_lcg_params : ℕ → ℕ → ℕ → ℕ → ℕ → Params
init_2d_lcg_params idx num_sequences seed a c = record {
  seed0 = right_seed seed a c (mul_u32 2 idx);
  seed1 = right_seed seed a c (add_u32 (mul_u32 2 idx) 1);
  constants = leapfrog_constants num_sequences a c;
}

-- `cores` is `snrt_cluster_compute_core_num()`.
unfoldable pub mc_init : ℕ → ℕ → Params
mc_init cores idx = init_2d_lcg_params idx (mul_u32 2 cores) 0 lcg_a lcg_c

-- The local variables of `calculate_partial_sum`
pub record Sampling : Type 0 where
  pub x1 : ℕ
  pub x2 : ℕ
  pub result : ℕ

module _ {A : Type 0} (f : Float A) where
  unfoldable pub normalize : ℕ → A
  normalize x = f.mul (f.of_nat x) (f.div (f.of_nat 1) (f.of_nat (2 ^ 32)))

  -- The test `u1 * u1 + u2 * u2 < one` on two random words
  unfoldable pub is_inside : ℕ → ℕ → Bool
  is_inside x1 x2 =
      f.is_greater (f.of_nat 1)
        (f.add (f.mul (normalize x1) (normalize x1)) (f.mul (normalize x2) (normalize x2)))

  unfoldable pub sample : Constants → Sampling → Sampling
  sample k s = record {
    x1 = lcg k.ap k.cp s.x1;
    x2 = lcg k.ap k.cp s.x2;
    result = if is_inside s.x1 s.x2 then add_u32 s.result 1 else s.result;
  }

  unfoldable pub calculate_partial_sum : Params → ℕ → ℕ
  calculate_partial_sum p n =
      (loop n (λ i. sample p.constants) (record { x1 = p.seed0; x2 = p.seed1; result = 0 })).result

  -- What the core with the global compute index `idx`, in a cluster with `cores` compute cores, leaves
  -- in `reduction_array`
  unfoldable pub core_sum : ℕ → ℕ → ℕ
  core_sum cores idx = calculate_partial_sum (mc_init cores idx) (n_samples / cores)

  -- The sum that the first core of the cluster `cluster` takes, where core `i` has the global index
  -- that `snrt_global_compute_core_idx` gives it, and its estimate of pi
  unfoldable pub reduced_sum : ℕ → ℕ → ℕ
  reduced_sum cluster cores =
      loop cores (λ i sum. add_u32 sum (core_sum cores (add_u32 (mul_u32 cluster cores) i))) 0

  unfoldable pub estimate_pi : ℕ → ℕ → A
  estimate_pi sum samples = f.div (f.of_nat (mul_u32 4 sum)) (f.of_nat samples)
