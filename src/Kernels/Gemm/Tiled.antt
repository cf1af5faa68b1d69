-- ===== src/Kernels/Gemm/Tiled.antt =====
-- `gemm` of sw/blas/gemm/src/gemm.h: the tiles of a product, dealt out to the clusters. Modelled is the
-- case in which `load_a`, `load_b` and `load_c` are set and `parallelize_k` is not.
pub mod Tile
pub mod Whole
use snax_rebase.Base.{ℕ, ◌+◌, ◌*◌, Bool, ◌==◌, if◌then◌else◌}
use snax_rebase.Base.Grid.{write_grid}
use snax_rebase.Base.Loops.{loop}
use snax_rebase.Base.Words.{add_u32, mul_u32, div_u32}
use snax_rebase.Kernels.Float.{Float}
use snax_rebase.Kernels.Gemm.{Operand, cluster_gemm}

pub record Call : Type 0 where
  pub parallelize_m : Bool
  pub m_tiles : ℕ
  pub n_tiles : ℕ
  pub k_tiles : ℕ
  pub transa : Bool
  pub transb : Bool
  pub m : ℕ
  pub n : ℕ
  pub k : ℕ
  pub beta : ℕ

-- A cluster's tiles in its TCDM, and the result in main memory.
pub record Arrays (A : Type 0) : Type 0 where
  pub local_a : ℕ → A
  pub local_b : ℕ → A
  pub local_c : ℕ → A
  pub c : ℕ → A

abbrev pub frac_m : Call → ℕ
frac_m g = div_u32 g.m g.m_tiles

abbrev pub frac_n : Call → ℕ
frac_n g = div_u32 g.n g.n_tiles

abbrev pub frac_k : Call → ℕ
frac_k g = div_u32 g.k g.k_tiles

-- Element `(r, j)` of the tile `(x1, x0)` in an array whose rows have `full` elements
abbrev pub in_array : ℕ → ℕ → ℕ → ℕ → ℕ → ℕ → ℕ → ℕ
in_array rows cols full x1 x0 r j = (x1 * rows + r) * full + (x0 * cols + j)

-- The elements that `snrt_dma_load_2d_tile` and `snrt_dma_store_2d_tile` move, once the engine is done.
unfoldable pub load_tile : {A : Type 0} → ℕ → ℕ → ℕ → ℕ → ℕ → (ℕ → A) → (ℕ → A) → ℕ → A
load_tile rows cols full x1 x0 array packed =
    write_grid (λ r j. r * cols + j) (λ r j. array (in_array rows cols full x1 x0 r j)) rows cols
      packed

unfoldable pub store_tile : {A : Type 0} → ℕ → ℕ → ℕ → ℕ → ℕ → (ℕ → A) → (ℕ → A) → ℕ → A
store_tile rows cols full x1 x0 packed array =
    write_grid (in_array rows cols full x1 x0) (λ r j. packed (r * cols + j)) rows cols array

unfoldable pub m_tiles_per_cluster : Call → ℕ → ℕ
m_tiles_per_cluster g clusters = if g.parallelize_m then div_u32 g.m_tiles clusters else g.m_tiles

module _ {A : Type 0} (f : Float A) (cores : ℕ) (g : Call) (a b : ℕ → A) where
  -- One round of the loop over `k_tile`, on all cores of a cluster. `abs_k_tile_idx` is `k_tile`.
  unfoldable pub k_round : ℕ → ℕ → ℕ → Arrays A → Arrays A
  unfolding load_tile cluster_gemm
  k_round abs_m_tile_idx n_tile k_tile s =
      let local_a = load_tile (frac_m g) (frac_k g) g.k abs_m_tile_idx k_tile a s.local_a in
      let local_b = load_tile (frac_k g) (frac_n g) g.n k_tile n_tile b s.local_b in
      let loaded =
        if k_tile == 0
        then load_tile (frac_m g) (frac_n g) g.n abs_m_tile_idx n_tile s.c s.local_c
        else s.local_c in
      let beta_k = if k_tile == 0 then g.beta else 1 in
      record s {
        local_a = local_a;
        local_b = local_b;
        local_c =
            cluster_gemm f cores (frac_m g) (frac_n g) (frac_k g)
              (record { elements = local_a; start = 0; ld = frac_k g; transposed = g.transa })
              (record {
                elements = local_b;
                start = 0;
                ld = if g.transb then frac_k g else frac_n g;
                transposed = g.transb;
              })
              0 (frac_n g) (f.of_nat beta_k) loaded;
      }

  unfoldable pub tile_round : ℕ → ℕ → Arrays A → Arrays A
  unfolding k_round store_tile
  tile_round abs_m_tile_idx n_tile s =
      let done = loop g.k_tiles (k_round abs_m_tile_idx n_tile) s in
      record done {
        c = store_tile (frac_m g) (frac_n g) g.n abs_m_tile_idx n_tile done.local_c done.c;
      }

  -- The cluster `idx` of `clusters`
  unfoldable pub cluster_tiles : ℕ → ℕ → Arrays A → Arrays A
  unfolding tile_round m_tiles_per_cluster
  cluster_tiles clusters idx s =
      loop (m_tiles_per_cluster g clusters)
        (λ m_tile. loop g.n_tiles (
          tile_round (
            if g.parallelize_m
            then add_u32 (mul_u32 idx (m_tiles_per_cluster g clusters)) m_tile
            else m_tile)))
        s

  -- All clusters, with their tiles as earlier code left them. With `parallelize_m` their order does not
  -- matter: they write different elements.
  unfoldable pub gemm : ℕ → (ℕ → Arrays A) → (ℕ → A) → ℕ → A
  unfolding cluster_tiles
  gemm clusters tiles c =
      loop clusters (λ idx c. (cluster_tiles clusters idx (record (tiles idx) { c = c })).c) c
