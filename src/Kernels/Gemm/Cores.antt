-- ===== src/Kernels/Gemm/Cores.antt =====
-- The product that the cores of a cluster share (sw/blas/gemm/src/gemm.h).
use snax_rebase.Base.{
  ℕ, ◌+◌, ◌*◌, ◌/◌, ◌%◌, ◌^◌, ◌≤◌, ◌<◌, ◌≡◌, ◌≢◌, refl, ◌∙◌, sym, ap, subst, false, arith,
  mod-eq_of_lt, dec_lt, mod-lt, mul_assoc,
}
use native.Mathlib.Nat.{div-add-mod', div-mul-le_self, div-lt_iff_lt-mul}
use snax_rebase.Base.Loops.{loop, loop-ext}
use snax_rebase.Base.Grid.{loop_off, loop_at, row_unique}
use snax_rebase.Base.Words.{u32, mul_u32}
use snax_rebase.Kernels.Float.{Float}
use snax_rebase.Kernels.Gemm.{
  Operand, a_index, b_index, multiply_opt, accumulate, gemm_naive, sc_st_gemm, cluster_gemm,
}
use snax_rebase.Kernels.Gemm.Entry.{Fits, naive_off, gemm_naive_entry}

-- Row `i` of the whole is row `r` of core `id`.
split_row : (r cores id ld : ℕ) → (r * cores + id) * ld ≡ r * (cores * ld) + id * ld
split_row r cores id ld = grind arith

grow : (a b : ℕ) → 0 < a → b ≤ a * b
grow a b h = grind arith

mul-le : (a b c : ℕ) → a ≤ b → a * c ≤ b * c
mul-le a b c h = grind arith

-- The products of the strided operand stay below those of the whole matrix.
strided_room :
    (m cores ld : ℕ)
    → 0 < cores
    → 0 < m / cores
    → m * ld < 2 ^ 32
    → (ld ≤ cores * ld) × (cores * ld < 2 ^ 32) × (m / cores * (cores * ld) < 2 ^ 32)
strided_room m cores ld hc hf room =
    let less : m / cores * cores ≤ m = div-mul-le_self m cores in
    let whole : m / cores * (cores * ld) ≤ m * ld = grow_row (m / cores) cores m ld less in
    omega (arith, grow cores ld hc, grow (m / cores) (cores * ld) hf, whole)
  where
    grow_row : (q c m ld : ℕ) → q * c ≤ m → q * (c * ld) ≤ m * ld
    grow_row q c m ld h = omega (arith, mul_assoc q c ld, mul-le (q * c) m ld h)

mul-lt_row : (r q cores id : ℕ) → r < q → id < cores → r * cores + id < q * cores
mul-lt_row r q cores id hr hi = grind arith

mul-le_ld : (i m ld : ℕ) → i < m → i * ld + ld ≤ m * ld
mul-le_ld i m ld h = grind arith

id_row : (r cores id ld : ℕ) → id * ld ≤ (r * cores + id) * ld
id_row r cores id ld = grind arith

module _ (cores size_m ld r id : ℕ) (some_cores : 0 < cores) (hr : r < size_m / cores)
    (hid : id < cores) (room : size_m * ld < 2 ^ 32) where
  abbrev row : ℕ
  row = r * cores + id

  row-lt : row < size_m
  row-lt =
      omega (arith, mul-lt_row r (size_m / cores) cores id hr hid, div-mul-le_self size_m cores)

  -- Row `r` of the strided matrix that starts `id` rows later is row `row` of the whole.
  pub same_place : (k : ℕ) → k < ld → mul_u32 id ld + (r * mul_u32 cores ld + k) ≡ row * ld + k
  same_place k hk =
      let inside : row * ld + ld ≤ size_m * ld = mul-le_ld row size_m ld row-lt in
      let (_, wide, _) = strided_room size_m cores ld some_cores (omega arith) room in
      let exact : mul_u32 cores ld ≡ cores * ld = mod-eq_of_lt wide in
      rw exact (omega (arith, inside, split_row r cores id ld, id_row r cores id ld, room))

  pub same_subscript :
      (k : ℕ) → k < ld → mul_u32 id ld + u32 (k + r * mul_u32 cores ld) ≡ u32 (k + row * ld)
  same_subscript k hk =
      let inside : row * ld + ld ≤ size_m * ld = mul-le_ld row size_m ld row-lt in
      omega (arith, inside, same_place k hk, room)

module _ {A : Type 0} (f : Float A) (cores size_m size_n size_k : ℕ) (a b : Operand A)
    (start ldc : ℕ) (beta : A) (some_cores : 0 < cores) (fits : Fits size_m size_n ldc) where
  core_fits : (r : ℕ) → r < size_m / cores → Fits (size_m / cores) size_n (mul_u32 cores ldc)
  core_fits r hr =
      let (wider, wide, whole) = strided_room size_m cores ldc some_cores (omega arith) fits.rows in
      let exact : mul_u32 cores ldc ≡ cores * ldc = mod-eq_of_lt wide in
      record { columns = omega (arith, exact, wider, fits.columns); rows = rw exact whole }

  -- The element `(i, j)` of the result
  abbrev at : ℕ → ℕ → ℕ
  at i j = start + (i * ldc + j)

  other_core :
      (r id j id' : ℕ) (c : ℕ → A)
      → r < size_m / cores
      → id < cores
      → j < size_n
      → id' < cores
      → id' ≢ id
      → sc_st_gemm f cores id' size_m size_n size_k a b start ldc beta c (at (r * cores + id) j)
        ≡ c (at (r * cores + id) j)
  unfolding sc_st_gemm
  other_core r id j id' c hr hid hj hid' ne =
      naive_off f (size_m / cores) size_n size_k _ b (start + mul_u32 id' ldc) (mul_u32 cores ldc)
        beta (core_fits r hr) _ c
        (λ m n hm hn e.
          let place =
            same_place cores size_m ldc m id' some_cores hm hid' fits.rows n
              (omega (arith, hn, fits.columns)) in
          let same_row =
            row_unique (m * cores + id') n (r * cores + id) j ldc (omega (arith, fits.columns))
              (omega (arith, fits.columns)) (omega (arith, e, place)) in
          ne (row_unique m id' r id cores hid' hid same_row.0).1)

  module _ (plain : a.transposed ≡ false) (inner : size_k ≤ a.ld)
      (room : size_m * a.ld < 2 ^ 32) where
    -- The row of the first operand as the core reads it
    abbrev strided : ℕ → Operand A
    strided id = record a { start = a.start + mul_u32 id a.ld; ld = mul_u32 cores a.ld }

    same_subscripts :
        (r id k : ℕ)
        → r < size_m / cores
        → id < cores
        → k < size_k
        → (strided id).start + a_index (size_m / cores) (strided id) r k
          ≡ a.start + a_index size_m a (r * cores + id) k
    unfolding a_index
    same_subscripts r id k hr hid hk = simp plain (
        omega (
          arith,
          same_subscript cores size_m a.ld r id some_cores hr hid room k (omega (arith, inner)),
        ))

    same_sum :
        (r id j : ℕ) (v : A)
        → r < size_m / cores
        → id < cores
        → accumulate f (size_m / cores) size_k (strided id) b r j v
          ≡ accumulate f size_m size_k a b (r * cores + id) j v
    unfolding accumulate
    same_sum r id j v hr hid = loop-ext size_k _ _ v (λ k s hk.
        ap (λ x. f.add s (f.mul (a.elements x) (b.elements (b.start + b_index b j k))))
          (same_subscripts r id k hr hid hk))

    own_core :
        (r id j : ℕ) (c : ℕ → A)
        → r < size_m / cores
        → id < cores
        → j < size_n
        → sc_st_gemm f cores id size_m size_n size_k a b start ldc beta c (at (r * cores + id) j)
          ≡ accumulate f size_m size_k a b
              (r * cores + id)
              j
              (multiply_opt f (c (at (r * cores + id) j)) beta)
    unfolding sc_st_gemm
    own_core r id j c hr hid hj =
        let place =
          same_place cores size_m ldc r id some_cores hr hid fits.rows j
            (omega (arith, fits.columns)) in
        let here : start + mul_u32 id ldc + (r * mul_u32 cores ldc + j) ≡ at (r * cores + id) j =
          omega (arith, place) in
        subst
          (λ y.
            gemm_naive f (size_m / cores) size_n size_k (strided id) b (start + mul_u32 id ldc)
              (mul_u32 cores ldc) beta c y
            ≡ accumulate f size_m size_k a b (r * cores + id) j (multiply_opt f (c y) beta))
          here
          (gemm_naive_entry f (size_m / cores) size_n size_k (strided id) b (start + mul_u32 id ldc)
              (mul_u32 cores ldc) beta (core_fits r hr) r j c hr hj
            ∙ same_sum r id j _ hr hid)

    shared_row :
        (r id j : ℕ) (c : ℕ → A)
        → r < size_m / cores
        → id < cores
        → j < size_n
        → cluster_gemm f cores size_m size_n size_k a b start ldc beta c (at (r * cores + id) j)
          ≡ gemm_naive f size_m size_n size_k a b start ldc beta c (at (r * cores + id) j)
    unfolding cluster_gemm
    shared_row r id j c hr hid hj =
        loop_at _ _ cores c id
          (λ v. accumulate f size_m size_k a b (r * cores + id) j (multiply_opt f v beta)) hid
          (λ id' d hid' ne. other_core r id j id' d hr hid hj hid' ne)
          (λ d. own_core r id j d hr hid hj)
        ∙ sym (
            gemm_naive_entry f size_m size_n size_k a b start ldc beta fits (r * cores + id) j c
              (row-lt cores size_m ldc r id some_cores hr hid fits.rows) hj)

    -- With a first operand that is not transposed, `sc_st_gemm` on all compute cores gives, in the
    -- rows below the number of cores times the rows of each, what `gemm_fp64_naive` gives for the
    -- whole matrices on one core. The rows have to fit the leading dimensions, and the matrices the
    -- address space.
    pub cluster_gemm_rows :
        (i j : ℕ) (c : ℕ → A)
        → i < size_m / cores * cores
        → j < size_n
        → cluster_gemm f cores size_m size_n size_k a b start ldc beta c (at i j)
          ≡ gemm_naive f size_m size_n size_k a b start ldc beta c (at i j)
    cluster_gemm_rows i j c hi hj =
        let split : i / cores * cores + i % cores ≡ i = div-add-mod' i cores in
        subst
          (λ x.
            cluster_gemm f cores size_m size_n size_k a b start ldc beta c (at x j)
            ≡ gemm_naive f size_m size_n size_k a b start ldc beta c (at x j))
          split
          (shared_row (i / cores) (i % cores) j c ((div-lt_iff_lt-mul some_cores).1 hi)
            (mod-lt i some_cores) hj)

  no_rows :
      (size_k : ℕ) (a b : Operand A) (start ld : ℕ) (c : ℕ → A)
      → gemm_naive f 0 size_n size_k a b start ld beta c ≡ c
  unfolding gemm_naive loop
  no_rows size_k a b start ld c = refl

  unshared :
      (i j : ℕ) (id : ℕ) (c : ℕ → A)
      → size_m / cores * cores ≤ i
      → j < size_n
      → id < cores
      → sc_st_gemm f cores id size_m size_n size_k a b start ldc beta c (at i j) ≡ c (at i j)
  unfolding sc_st_gemm
  unshared i j id c hi hj hid = elim (dec_lt 0 (size_m / cores)) [
    | yes rows ↦
        naive_off f (size_m / cores) size_n size_k _ b (start + mul_u32 id ldc) (mul_u32 cores ldc)
          beta (core_fits 0 rows) _ c
          (λ m n hm hn e.
            let place =
              same_place cores size_m ldc m id some_cores hm hid fits.rows n
                (omega (arith, hn, fits.columns)) in
            let same_row =
              row_unique (m * cores + id) n i j ldc (omega (arith, fits.columns))
                (omega (arith, fits.columns)) (omega (arith, e, place)) in
            omega (arith, same_row, mul-lt_row m (size_m / cores) cores id hm hid, hi))
    | no empty ↦ let zero : size_m / cores ≡ 0 = omega (arith, empty) in rw (zero, no_rows) refl
  ]

  -- After `sc_st_gemm` on all compute cores the rows from the number of cores times the rows of each on
  -- hold what they held before: with a number of rows that the number of cores does not divide the last
  -- ones are not computed. The rows have to fit the leading dimension, and the result the address space.
  pub cluster_gemm_rest :
      (i j : ℕ) (c : ℕ → A)
      → size_m / cores * cores ≤ i
      → j < size_n
      → cluster_gemm f cores size_m size_n size_k a b start ldc beta c (at i j) ≡ c (at i j)
  unfolding cluster_gemm
  cluster_gemm_rest i j c hi hj = loop_off _ _ cores c (λ id d hid. unshared i j id d hi hj hid)
