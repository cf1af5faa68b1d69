-- ===== src/Kernels/Gemm/Tiled/Whole.antt =====
-- What `gemm` leaves in the whole result (sw/blas/gemm/src/gemm.h).
use snax_rebase.Base.{
  ℕ, ◌+◌, ◌*◌, ◌/◌, ◌%◌, ◌^◌, ◌<◌, ◌≡◌, ◌≢◌, ◌⊎◌, inl, inr, refl, sym, ap, ap₂, ◌∙◌, subst, true,
  false, if◌then◌else◌, arith, mod-lt,
}
use native.Mathlib.Nat.{div-add-mod', div-lt_iff_lt-mul}
use snax_rebase.Base.Grid.{row_unique, loop_at, watch_off, watch_at, write_grid_at, write_grid_off}
use snax_rebase.Base.Loops.{loop, loop-ext}
use snax_rebase.Base.Words.{add_u32, mul_u32, div_u32}
use snax_rebase.Kernels.Float.{Float}
use snax_rebase.Kernels.Gemm.{Operand, a_index, b_index, accumulate, multiply_opt, gemm_naive}
use snax_rebase.Kernels.Gemm.Entry.{gemm_naive_entry}
use snax_rebase.Kernels.Gemm.Tiled.{
  Call, Arrays, frac_m, frac_n, in_array, store_tile, k_round, tile_round, m_tiles_per_cluster,
  cluster_tiles, gemm,
}
use snax_rebase.Kernels.Gemm.Tiled.Tile.{Shape, HasOne, tile_sum}

in_row : (t a w q : ℕ) → t < a → q < w → t * w + q < a * w
in_row t a w q h k = grind arith

div_u32_pos : (x y : ℕ) → 0 < y → div_u32 x y ≡ x / y
div_u32_pos x y h = ground arith

factor_pos : (m p q : ℕ) {t : ℕ} → m ≡ p * q → t < m → 0 < p
factor_pos m p q e h = grind arith

factor_pos' : (m p q : ℕ) {t : ℕ} → m ≡ p * q → t < m → 0 < q
factor_pos' m p q e h = grind arith

in_first : (idx e t : ℕ) → idx ≡ 0 → t ≡ idx * e + t
in_first idx e t h = grind arith

no_wrap : (p q : ℕ) → p + q < 2 ^ 32 → add_u32 (p % 2 ^ 32) q ≡ p + q
no_wrap p q h = omega arith

module _ {A : Type 0} (f : Float A) (one : HasOne f) (cores : ℕ) (g : Call) (a b : ℕ → A)
    (shape : Shape cores g) where
  abbrev fm : ℕ
  fm = frac_m g

  abbrev fn : ℕ
  fn = frac_n g

  abbrev spot : ℕ → ℕ → ℕ → ℕ → ℕ
  spot mt nt r j = in_array fm fn g.n mt nt r j

  -- The element `(i, j)` of the product, from what it was
  abbrev pub entry : ℕ → ℕ → A → A
  entry i j v =
      loop g.k (λ q x. f.add x (f.mul (a (i * g.k + q)) (b (q * g.n + j))))
        (multiply_opt f v (f.of_nat g.beta))

  column-lt : (nt j : ℕ) → nt < g.n_tiles → j < fn → nt * fn + j < g.n
  column-lt nt j hn hj = omega (arith, in_row nt g.n_tiles fn j hn hj, shape.whole_n)

  -- An element lies in one tile only, at one place.
  spot_unique :
      (mt nt r j mt' nt' r' j' : ℕ)
      → nt < g.n_tiles
      → r < fm
      → j < fn
      → nt' < g.n_tiles
      → r' < fm
      → j' < fn
      → spot mt' nt' r' j' ≡ spot mt nt r j
      → (mt' ≡ mt) × (nt' ≡ nt) × (r' ≡ r) × (j' ≡ j)
  spot_unique mt nt r j mt' nt' r' j' hn hr hj hn' hr' hj' e =
      let (rows, columns) =
        row_unique (mt' * fm + r') (nt' * fn + j') (mt * fm + r) (nt * fn + j) g.n
          (column-lt nt' j' hn' hj') (column-lt nt j hn hj) e in
      let (m_same, r_same) = row_unique mt' r' mt r fm hr' hr rows in
      let (n_same, j_same) = row_unique nt' j' nt j fn hj' hj columns in
      (m_same, n_same, r_same, j_same)

  module _ (mt nt r j : ℕ) (hm : mt < g.m_tiles) (hn : nt < g.n_tiles) (hr : r < fm)
      (hj : j < fn) where
    rounds_c :
        (mt' nt' : ℕ) (s : Arrays A)
        → (loop g.k_tiles (k_round f cores g a b mt' nt') s).c (spot mt nt r j)
          ≡ s.c (spot mt nt r j)
    unfolding k_round
    rounds_c mt' nt' s =
        watch_off (k_round f cores g a b mt' nt') (λ s. s.c (spot mt nt r j)) g.k_tiles s
          (λ i d lt. refl)

    own_tile :
        (s : Arrays A)
        → (tile_round f cores g a b mt nt s).c (spot mt nt r j)
          ≡ entry (mt * fm + r) (nt * fn + j) (s.c (spot mt nt r j))
    unfolding tile_round store_tile
    own_tile s =
        write_grid_at (spot mt nt) _ fm fn r j _ hr hj (λ r' j' hr' hj' e.
          let (_, _, same_r, same_j) = spot_unique mt nt r j mt nt r' j' hn hr hj hn hr' hj' e in
          (same_r, same_j))
        ∙ tile_sum f one cores g a b shape mt nt hm hn r j s hr hj

    other_tile :
        (mt' nt' : ℕ) (s : Arrays A)
        → nt' < g.n_tiles
        → (mt' ≢ mt) ⊎ (nt' ≢ nt)
        → (tile_round f cores g a b mt' nt' s).c (spot mt nt r j) ≡ s.c (spot mt nt r j)
    unfolding tile_round store_tile
    other_tile mt' nt' s hn' ne =
        write_grid_off (spot mt' nt') _ fm fn (spot mt nt r j) _ (λ r' j' hr' hj' e.
          let (same_m, same_n, _, _) = spot_unique mt nt r j mt' nt' r' j' hn hr hj hn' hr' hj' e in
          elim ne [ inl m ↦ m same_m | inr n ↦ n same_n ])
        ∙ rounds_c mt' nt' s

    abbrev shown : Arrays A → A
    shown s = s.c (spot mt nt r j)

    own_row :
        (s : Arrays A)
        → shown (loop g.n_tiles (tile_round f cores g a b mt) s)
          ≡ entry (mt * fm + r) (nt * fn + j) (shown s)
    own_row s =
        watch_at (tile_round f cores g a b mt) shown g.n_tiles s nt
          (entry (mt * fm + r) (nt * fn + j)) hn (λ i d lt ne. other_tile mt i d lt (inr ne))
          own_tile

    other_row :
        (mt' : ℕ) (s : Arrays A)
        → mt' ≢ mt
        → shown (loop g.n_tiles (tile_round f cores g a b mt') s) ≡ shown s
    other_row mt' s ne =
        watch_off (tile_round f cores g a b mt') shown g.n_tiles s
          (λ i d lt. other_tile mt' i d lt (inl ne))

  -- Either the m tiles are dealt out to the clusters without a rest, or there is one cluster.
  abbrev pub Dealt : ℕ → Type 0
  Dealt clusters =
      ((g.parallelize_m ≡ true) × (g.m_tiles ≡ clusters * (g.m_tiles / clusters)))
      ⊎ ((g.parallelize_m ≡ false) × (clusters ≡ 1))

  module _ (clusters : ℕ) (dealt : Dealt clusters) (small : g.m_tiles < 2 ^ 32) (mt nt r j : ℕ)
      (hm : mt < g.m_tiles) (hn : nt < g.n_tiles) (hr : r < fm) (hj : j < fn) where
    abbrev each : ℕ
    each = m_tiles_per_cluster g clusters

    abbrev absolute : ℕ → ℕ → ℕ
    absolute idx m_tile = if g.parallelize_m then add_u32 (mul_u32 idx each) m_tile else m_tile

    split_m : g.m_tiles ≡ clusters * each
    unfolding m_tiles_per_cluster
    split_m = elim dealt [
      | inl (parallel, even) ↦ rw parallel (
          even
          ∙ ap (λ (q : ℕ). clusters * q)
              (sym (div_u32_pos g.m_tiles clusters (factor_pos g.m_tiles clusters _ even hm))))
      | inr (whole, single) ↦ rw (whole, single) (omega arith)
    ]

    absolute_lem :
        (idx m_tile : ℕ)
        → idx < clusters
        → m_tile < each
        → absolute idx m_tile ≡ idx * each + m_tile
    absolute_lem idx m_tile hi ht = elim dealt [
      | inl (parallel, even) ↦ simp parallel (
          no_wrap (idx * each) m_tile
            (omega (arith, in_row idx clusters each m_tile hi ht, split_m, small)))
      | inr (whole, single) ↦ simp whole (in_first idx each m_tile (omega arith))
    ]

    some_each : 0 < each
    some_each = factor_pos' g.m_tiles clusters each split_m hm

    owner-lt : mt / each < clusters
    owner-lt = (div-lt_iff_lt-mul some_each).1 (omega (arith, split_m))

    owner_tile : mt / each * each + mt % each ≡ mt
    owner_tile = div-add-mod' mt each

    own_cluster :
        (s : Arrays A)
        → (cluster_tiles f cores g a b clusters (mt / each) s).c (spot mt nt r j)
          ≡ entry (mt * fm + r) (nt * fn + j) (s.c (spot mt nt r j))
    unfolding cluster_tiles
    own_cluster s =
        watch_at _ (shown mt nt r j hm hn hr hj) each s (mt % each)
          (entry (mt * fm + r) (nt * fn + j)) (mod-lt mt some_each)
          (λ i d lt ne.
            other_row mt nt r j hm hn hr hj (absolute (mt / each) i) d
              (λ e. ne (omega (arith, e, absolute_lem (mt / each) i owner-lt lt, owner_tile))))
          (λ d.
            subst
              (λ q.
                (loop g.n_tiles (tile_round f cores g a b q) d).c (spot mt nt r j)
                ≡ entry (mt * fm + r) (nt * fn + j) (d.c (spot mt nt r j)))
              (sym
                (absolute_lem (mt / each) (mt % each) owner-lt (mod-lt mt some_each) ∙ owner_tile))
              (own_row mt nt r j hm hn hr hj d))

    other_cluster :
        (idx : ℕ) (s : Arrays A)
        → idx < clusters
        → idx ≢ mt / each
        → (cluster_tiles f cores g a b clusters idx s).c (spot mt nt r j) ≡ s.c (spot mt nt r j)
    unfolding cluster_tiles
    other_cluster idx s hi ne = watch_off _ (shown mt nt r j hm hn hr hj) each s (λ i d lt.
        other_row mt nt r j hm hn hr hj (absolute idx i) d (λ e.
          ne
            (row_unique idx i (mt / each) (mt % each) each lt (mod-lt mt some_each)
              (sym (absolute_lem idx i hi lt) ∙ e ∙ sym owner_tile)).0))

    all_clusters :
        (tiles : ℕ → Arrays A) (c : ℕ → A)
        → gemm f cores g a b clusters tiles c (spot mt nt r j)
          ≡ entry (mt * fm + r) (nt * fn + j) (c (spot mt nt r j))
    unfolding gemm
    all_clusters tiles c =
        loop_at _ (spot mt nt r j) clusters c (mt / each) (entry (mt * fm + r) (nt * fn + j))
          owner-lt (λ idx d hi ne. other_cluster idx (record (tiles idx) { c = d }) hi ne)
          (λ d. own_cluster (record (tiles (mt / each)) { c = d }))

  -- The operands of the whole product
  abbrev pub whole_a : Operand A
  whole_a = record { elements = a; start = 0; ld = g.k; transposed = g.transa }

  abbrev pub whole_b : Operand A
  whole_b = record { elements = b; start = 0; ld = g.n; transposed = g.transb }

  pub naive_entry :
      (i j : ℕ) (c : ℕ → A)
      → i < g.m
      → j < g.n
      → gemm_naive f g.m g.n g.k whole_a whole_b 0 g.n (f.of_nat g.beta) c (i * g.n + j)
        ≡ entry i j (c (i * g.n + j))
  unfolding accumulate a_index b_index
  naive_entry i j c hi hj =
      subst
        (λ y.
          gemm_naive f g.m g.n g.k whole_a whole_b 0 g.n (f.of_nat g.beta) c y ≡ entry i j (c y))
        (omega arith)
        (gemm_naive_entry f g.m g.n g.k whole_a whole_b 0 g.n (f.of_nat g.beta)
            (record { columns = omega arith; rows = shape.room_c }) i j c hi hj
          ∙ loop-ext g.k _ _ _ (λ q x hq.
            ap₂ (λ y z. f.add x (f.mul (a y) (b z))) (a_place i q hi hq) (b_place q j hq hj)))
    where
      a_place : (i q : ℕ) → i < g.m → q < g.k → 0 + a_index g.m whole_a i q ≡ i * g.k + q
      a_place i q hi hq = simp shape.plain_a (omega (arith, in_row i g.m g.k q hi hq, shape.room_a))

      b_place : (q j : ℕ) → q < g.k → j < g.n → 0 + b_index whole_b j q ≡ q * g.n + j
      b_place q j hq hj = simp shape.plain_b (omega (arith, in_row q g.k g.n j hq hj, shape.room_b))

  -- With the tiles dealt out to the clusters without a rest, or on one cluster, `gemm` leaves in every
  -- element what one `gemm_fp64_naive` on the whole matrices leaves. Nothing is transposed, the numbers
  -- of tiles divide the sizes, the number of compute cores divides the rows of a tile, the matrices fit
  -- the address space, and a factor of 1 is not zero and changes no number.
  pub gemm_whole :
      (clusters : ℕ) (tiles : ℕ → Arrays A) (c : ℕ → A) (i j : ℕ)
      → Dealt clusters
      → g.m_tiles < 2 ^ 32
      → i < g.m
      → j < g.n
      → gemm f cores g a b clusters tiles c (i * g.n + j)
        ≡ gemm_naive f g.m g.n g.k whole_a whole_b 0 g.n (f.of_nat g.beta) c (i * g.n + j)
  gemm_whole clusters tiles c i j dealt small hi hj =
      let rows : 0 < fm = factor_pos' g.m g.m_tiles fm shape.whole_m hi in
      let columns : 0 < fn = factor_pos' g.n g.n_tiles fn shape.whole_n hj in
      let tiled =
        all_clusters clusters dealt small (i / fm) (j / fn) (i % fm) (j % fn)
          ((div-lt_iff_lt-mul rows).1 (omega (arith, shape.whole_m)))
          ((div-lt_iff_lt-mul columns).1 (omega (arith, shape.whole_n))) (mod-lt i rows)
          (mod-lt j columns) tiles c in
      subst (λ x. gemm f cores g a b clusters tiles c (x * g.n + j) ≡ entry x j (c (x * g.n + j)))
        (div-add-mod' i fm)
        (subst
          (λ y.
            gemm f cores g a b clusters tiles c ((i / fm * fm + i % fm) * g.n + y)
            ≡ entry (i / fm * fm + i % fm) y (c ((i / fm * fm + i % fm) * g.n + y)))
          (div-add-mod' j fn) tiled)
      ∙ sym (naive_entry i j c hi hj)
