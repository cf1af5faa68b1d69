-- ===== src/Kernels/Random/Samples.antt =====
-- Which random points the compute cores of a cluster test together
-- (sw/apps/montecarlo/pi_estimation).
use snax_rebase.Base.{ℕ, ◌+◌, ◌*◌, ◌/◌, ◌^◌, ◌<◌, if◌then◌else◌}
use snax_rebase.Base.Loops.{total}
use snax_rebase.Kernels.Float.{Float}
use snax_rebase.Kernels.Random.{
  lcg_a, lcg_c, n_samples, Constants, Sampling, leapfrog_constants, right_seed, is_inside,
}

-- The random numbers, all from one generator
abbrev pub number : ℕ → ℕ
number i = right_seed 0 lcg_a lcg_c i

module _ {A : Type 0} (f : Float A) where
  -- Whether the `j`th pair of numbers counts
  unfoldable pub hit : ℕ → ℕ
  hit j = if is_inside f (number (2 * j)) (number (2 * j + 1)) then 1 else 0

  module _ (cores id : ℕ) (few : cores < 2 ^ 31) where
    abbrev start : Sampling
    start = record { x1 = number (2 * id); x2 = number (2 * id + 1); result = 0 }

    abbrev constants : Constants
    constants = leapfrog_constants (2 * cores) lcg_a lcg_c

  module _ (cluster cores : ℕ) (few : (cluster + 1) * cores < 2 ^ 31) where
    -- The global index of the first core of the cluster
    abbrev base : ℕ
    base = cluster * cores

    abbrev hits_of : ℕ → ℕ
    hits_of id = total (n_samples / cores) (λ i. hit (base + (i * cores + id)))
