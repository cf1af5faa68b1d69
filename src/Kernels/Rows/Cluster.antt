-- ===== src/Kernels/Rows/Cluster.antt =====
-- The rows that the cores of a cluster compute (sw/dnn/softmax, sw/dnn/layernorm).
use snax_rebase.Base.{
  ℕ, ◌+◌, ◌*◌, ◌/◌, ◌%◌, ◌^◌, ◌<◌, ◌≤◌, ◌≡◌, ◌≢◌, sym, subst, ◌∙◌, arith, mod-eq_of_lt, mod-lt,
}
use snax_rebase.Base.Grid.{loop_off, loop_once, row_unique}
use snax_rebase.Base.Words.{mul_u32}
use native.Mathlib.Nat.{div-add-mod', div-lt_iff_lt-mul}
use snax_rebase.Kernels.Rows.{position, core_rows, cluster_rows, IsRow}

next_row : (a b w : ℕ) → a < b → a * w + w ≤ b * w
next_row a b w h = grind arith

regroup :
    (b s c cores seq_len width : ℕ)
    → c * width + (b * (seq_len * width) + s * (cores * width))
      ≡ (b * seq_len + (s * cores + c)) * width
regroup b s c cores seq_len width = grind arith

wider : (a b w : ℕ) → a ≤ b → a * w ≤ b * w
wider a b w h = grind arith

times_one : (a w : ℕ) → 0 < a → w ≤ a * w
times_one a w h = grind arith

positive : (tile cores r : ℕ) → r < tile * cores → 0 < cores
positive tile cores r h = grind arith

module _ (cores batch_size seq_len tile width : ℕ) (room : batch_size * seq_len * width < 2 ^ 32)
    (fits : tile * cores ≤ seq_len) where
  -- Row `s` of core `c` is row `s * cores + c` of its sample.
  module _ (b s c : ℕ) (hb : b < batch_size) (hs : s < tile) (hc : c < cores) where
    row_in : s * cores + c < seq_len
    row_in = omega (arith, next_row s tile cores hs, fits)

    number : b * seq_len + (s * cores + c) < batch_size * seq_len
    number = omega (arith, next_row b batch_size seq_len hb, row_in)

    inside : (b * seq_len + (s * cores + c)) * width + width ≤ batch_size * seq_len * width
    inside = next_row (b * seq_len + (s * cores + c)) (batch_size * seq_len) width number

    sample-lt : seq_len * width < 2 ^ 32
    sample-lt = omega (
      arith,
      wider seq_len (batch_size * seq_len) width (times_one batch_size seq_len (omega arith)),
      room,
    )

    stride-lt : cores * width < 2 ^ 32
    stride-lt = omega (
      arith,
      wider cores seq_len width (omega (arith, times_one tile cores (omega arith), fits)),
      sample-lt,
    )

    place :
        (i : ℕ)
        → i < width
        → mul_u32 c width + position (mul_u32 seq_len width) (mul_u32 cores width) b s i
          ≡ (b * seq_len + (s * cores + c)) * width + i
    place i hi =
        let sample : mul_u32 seq_len width ≡ seq_len * width = mod-eq_of_lt sample-lt in
        let stride : mul_u32 cores width ≡ cores * width = mod-eq_of_lt stride-lt in
        rw (sample, stride) (omega (arith, regroup b s c cores seq_len width, inside, room))

  -- Two rows share no element.
  place_unique :
      (b s c i b' s' c' i' : ℕ)
      → b < batch_size
      → s < tile
      → c < cores
      → i < width
      → b' < batch_size
      → s' < tile
      → c' < cores
      → i' < width
      → (b * seq_len + (s * cores + c)) * width + i
        ≡ (b' * seq_len + (s' * cores + c')) * width + i'
      → (b ≡ b') × (s ≡ s') × (c ≡ c') × (i ≡ i')
  place_unique b s c i b' s' c' i' hb hs hc hi hb' hs' hc' hi' e =
      let (row_same, i_same) = row_unique _ i _ i' width hi hi' e in
      let (b_same, rest) =
        row_unique b (s * cores + c) b' (s' * cores + c') seq_len (row_in b s c hb hs hc)
          (row_in b' s' c' hb' hs' hc') row_same in
      let (s_same, c_same) = row_unique s c s' c' cores hc hc' rest in
      (b_same, s_same, c_same, i_same)

  module _ {A : Type 0} (row : (ℕ → ℕ) → (ℕ → A) → ℕ → A) (value : (ℕ → ℕ) → ℕ → A)
      (laws : IsRow width row value) where
    -- The subscripts that core `c` uses for its row `s` of sample `b`
    abbrev used : ℕ → ℕ → ℕ → ℕ → ℕ
    used c b s i = mul_u32 c width + position (mul_u32 seq_len width) (mul_u32 cores width) b s i

    row_off :
        (b s c b' s' c' i : ℕ) (d : ℕ → A)
        → b < batch_size
        → s < tile
        → c < cores
        → b' < batch_size
        → s' < tile
        → c' < cores
        → i < width
        → ¬ ((b' ≡ b) × (s' ≡ s) × (c' ≡ c))
        → row (used c' b' s') d ((b * seq_len + (s * cores + c)) * width + i)
          ≡ d ((b * seq_len + (s * cores + c)) * width + i)
    row_off b s c b' s' c' i d hb hs hc hb' hs' hc' hi other =
        laws.off (used c' b' s') d _ (λ i' hi' e.
          let all =
            place_unique b' s' c' i' b s c i hb' hs' hc' hi' hb hs hc hi
              (sym (place b' s' c' hb' hs' hc' i' hi') ∙ e) in
          other (all.0, all.1, all.2))

    row_own :
        (b s c i : ℕ) (d : ℕ → A)
        → b < batch_size
        → s < tile
        → c < cores
        → i < width
        → row (used c b s) d ((b * seq_len + (s * cores + c)) * width + i)
          ≡ value (λ j. (b * seq_len + (s * cores + c)) * width + j) i
    row_own b s c i d hb hs hc hi =
        let here = place b s c hb hs hc in
        subst
          (λ y. row (used c b s) d y ≡ value (λ j. (b * seq_len + (s * cores + c)) * width + j) i)
          (here i hi)
          (laws.own (used c b s) d i (λ j k hj hk e. omega (arith, here j hj, here k hk, e)) hi
            ∙ laws.same (used c b s) _ i here hi)

    core_off :
        (b s c c' i : ℕ) (d : ℕ → A)
        → b < batch_size
        → s < tile
        → c < cores
        → c' < cores
        → i < width
        → c' ≢ c
        → core_rows row batch_size tile
            (mul_u32 c' width)
            (mul_u32 seq_len width)
            (mul_u32 cores width)
            d
            ((b * seq_len + (s * cores + c)) * width + i)
          ≡ d ((b * seq_len + (s * cores + c)) * width + i)
    unfolding core_rows
    core_off b s c c' i d hb hs hc hc' hi ne = loop_off _ _ batch_size d (λ b' d hb'.
        loop_off _ _ tile d
          (λ s' d hs'. row_off b s c b' s' c' i d hb hs hc hb' hs' hc' hi (λ all. ne all.2)))

    core_own :
        (b s c i : ℕ) (d : ℕ → A)
        → b < batch_size
        → s < tile
        → c < cores
        → i < width
        → core_rows row batch_size tile
            (mul_u32 c width)
            (mul_u32 seq_len width)
            (mul_u32 cores width)
            d
            ((b * seq_len + (s * cores + c)) * width + i)
          ≡ value (λ j. (b * seq_len + (s * cores + c)) * width + j) i
    unfolding core_rows
    core_own b s c i d hb hs hc hi =
        loop_once _ _ batch_size d b _ hb
          (λ b' d hb' ne.
            loop_off _ _ tile d
              (λ s' d hs'. row_off b s c b' s' c i d hb hs hc hb' hs' hc hi (λ all. ne all.0)))
          (loop_once _ _ tile _ s _ hs
            (λ s' d hs' ne. row_off b s c b s' c i d hb hs hc hb hs' hc hi (λ all. ne all.1))
            (row_own b s c i _ hb hs hc hi))

    -- Each row among the first `tile * cores` rows of a sample gets its values.
    pub cluster_row :
        (b r i : ℕ) (out : ℕ → A)
        → b < batch_size
        → r < tile * cores
        → i < width
        → cluster_rows row cores batch_size seq_len tile width out ((b * seq_len + r) * width + i)
          ≡ value (λ j. (b * seq_len + r) * width + j) i
    unfolding cluster_rows
    cluster_row b r i out hb hr hi =
        let some_cores : 0 < cores = positive tile cores r hr in
        let s : r / cores < tile = (div-lt_iff_lt-mul some_cores).1 hr in
        let c : r % cores < cores = mod-lt r some_cores in
        subst
          (λ x.
            cluster_rows row cores batch_size seq_len tile width out ((b * seq_len + x) * width + i)
            ≡ value (λ j. (b * seq_len + x) * width + j) i)
          (div-add-mod' r cores)
          (loop_once _ _ cores out (r % cores) _ c
            (λ c' d hc' ne. core_off b (r / cores) (r % cores) c' i d hb s c hc' hi ne)
            (core_own b (r / cores) (r % cores) i _ hb s c hi))
