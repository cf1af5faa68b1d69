-- ===== src/Kernels/Shares.antt =====
-- How the kernels of sw/blas/axpy and of sw/apps share rounds among the compute cores of a cluster:
-- each core takes `n / cores` rounds in a row.
use snax_rebase.Base.{ℕ, ◌+◌, ◌*◌, ◌/◌, ◌^◌, ◌<◌, ◌≡◌, refl, ◌∙◌, arith}
use snax_rebase.Base.Loops.{loop, loop-ext, loop-nest}
use snax_rebase.Base.Words.{add_u32, mul_u32}
use native.Mathlib.Nat.{div-mul-le_self, mul_comm}

inside : (id cores q i : ℕ) → id < cores → i < q → id * q + i < cores * q
inside id cores q i hid hi = grind arith

module _ {A : Type 0} where
  -- The rounds of core `id`, from `core_offset` on
  unfoldable pub core_share : ℕ → ℕ → ℕ → (ℕ → A → A) → A → A
  core_share cores id n f c = loop (n / cores) (λ i1. f (add_u32 (mul_u32 id (n / cores)) i1)) c

  -- The cores, whose order does not matter where their rounds do not depend on each other
  unfoldable pub cluster_share : ℕ → ℕ → (ℕ → A → A) → A → A
  cluster_share cores n f c = loop cores (λ id. core_share cores id n f) c

  -- Together the cores run the first `cores * (n / cores)` rounds.
  pub cluster_share_lem :
      (cores n : ℕ) (f : ℕ → A → A) (c : A)
      → n < 2 ^ 32
      → cluster_share cores n f c ≡ loop (cores * (n / cores)) f c
  unfolding cluster_share core_share
  cluster_share_lem cores n f c room =
      loop-ext cores _ (λ id. loop (n / cores) (λ i1. f (id * (n / cores) + i1))) c
        (λ id x hid. loop-ext (n / cores) _ _ x (λ i1 y hi.
          let less : cores * (n / cores) < 2 ^ 32 =
            omega (arith, div-mul-le_self n cores, mul_comm cores (n / cores)) in
          let e : add_u32 (mul_u32 id (n / cores)) i1 ≡ id * (n / cores) + i1 =
            omega (arith, inside id cores (n / cores) i1 hid hi, less) in
          rw e refl))
      ∙ loop-nest cores (n / cores) f c
