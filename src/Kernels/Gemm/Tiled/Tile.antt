-- ===== src/Kernels/Gemm/Tiled/Tile.antt =====
-- What the loop over `k_tile` of `gemm` leaves in a tile of the result (sw/blas/gemm/src/gemm.h).
use snax_rebase.Base.{
  ℕ, zero, suc, ◌+◌, ◌-◌, ◌*◌, ◌/◌, ◌^◌, ◌≤◌, ◌<◌, ◌≡◌, refl, sym, ap, ap₂, ◌∙◌, subst, true, false,
  ◌==◌, if◌then◌else◌, arith,
}
use snax_rebase.Base.Grid.{row_unique, write_grid_at}
use snax_rebase.Base.Loops.{loop, loop-ext, loop-nest}
use snax_rebase.Kernels.Float.{Float}
use snax_rebase.Kernels.Gemm.{Operand, a_index, b_index, accumulate, multiply_opt, cluster_gemm}
use snax_rebase.Kernels.Gemm.Cores.{cluster_gemm_rows}
use snax_rebase.Kernels.Gemm.Entry.{Fits, gemm_naive_entry}
use snax_rebase.Kernels.Gemm.Tiled.{
  Call, Arrays, frac_m, frac_n, frac_k, in_array, load_tile, k_round,
}

-- Nothing is transposed, the tiles divide the matrices, the cores divide a tile's rows, and the
-- matrices fit the address space.
pub record Shape (cores : ℕ) (g : Call) : Type 0 where
  pub some_cores : 0 < cores
  pub plain_a : g.transa ≡ false
  pub plain_b : g.transb ≡ false
  pub whole_m : g.m ≡ g.m_tiles * frac_m g
  pub whole_n : g.n ≡ g.n_tiles * frac_n g
  pub whole_k : g.k ≡ g.k_tiles * frac_k g
  pub some_k : 0 < g.k_tiles
  pub shared : frac_m g / cores * cores ≡ frac_m g
  pub room_a : g.m * g.k < 2 ^ 32
  pub room_b : g.k * g.n < 2 ^ 32
  pub room_c : g.m * g.n < 2 ^ 32

-- A factor of 1 changes nothing.
pub record HasOne {A : Type 0} (f : Float A) : Type 0 where
  pub nonzero : f.is_nonzero (f.of_nat 1) ≡ true
  pub one : (x : A) → f.mul x (f.of_nat 1) ≡ x

load_tile_at :
    {A : Type 0} (rows cols full x1 x0 : ℕ) (array packed : ℕ → A) (r j : ℕ)
    → r < rows
    → j < cols
    → load_tile rows cols full x1 x0 array packed (r * cols + j)
      ≡ array (in_array rows cols full x1 x0 r j)
unfolding load_tile
load_tile_at rows cols full x1 x0 array packed r j hr hj =
    write_grid_at (λ r j. r * cols + j) (λ r j. array (in_array rows cols full x1 x0 r j)) rows cols
      r j packed hr hj (λ r' j' hr' hj' e. row_unique r' j' r j cols hj' hj e)

swap_sum : (q j n : ℕ) → j + q * n ≡ q * n + j
swap_sum q j n = omega arith

row_room : (i m w q : ℕ) → i < m → q < w → q + i * w < m * w
row_room i m w q hi hq = grind arith

-- A tile's product with its operands packed
module _ {A : Type 0} (f : Float A) (cores fm fn fk : ℕ) (la lb : ℕ → A) (some_cores : 0 < cores)
    (shared : fm / cores * cores ≡ fm) (room_a : fm * fk < 2 ^ 32) (room_b : fk * fn < 2 ^ 32)
    (room_c : fm * fn < 2 ^ 32) where
  abbrev left : Operand A
  left = record { elements = la; start = 0; ld = fk; transposed = false }

  abbrev right : Operand A
  right = record { elements = lb; start = 0; ld = fn; transposed = false }

  a_place : (r q : ℕ) → r < fm → q < fk → 0 + a_index fm left r q ≡ r * fk + q
  unfolding a_index
  a_place r q hr hq = omega (arith, row_room r fm fk q hr hq)

  b_place : (q j : ℕ) → q < fk → j < fn → 0 + b_index right j q ≡ q * fn + j
  unfolding b_index
  b_place q j hq hj = omega (arith, row_room q fk fn j hq hj)

  fits : Fits fm fn fn
  fits = record { columns = omega arith; rows = room_c }

  packed_product :
      (beta : A) (c : ℕ → A) (r j : ℕ)
      → r < fm
      → j < fn
      → cluster_gemm f cores fm fn fk left right 0 fn beta c (r * fn + j)
        ≡ loop fk
            (λ q x. f.add x (f.mul (la (r * fk + q)) (lb (q * fn + j))))
            (multiply_opt f (c (r * fn + j)) beta)
  unfolding accumulate
  packed_product beta c r j hr hj =
      subst
        (λ y.
          cluster_gemm f cores fm fn fk left right 0 fn beta c y
          ≡ loop fk (λ q x. f.add x (f.mul (la (r * fk + q)) (lb (q * fn + j))))
              (multiply_opt f (c y) beta))
        (omega arith)
        (cluster_gemm_rows f cores fm fn fk left right 0 fn beta some_cores fits refl (omega arith)
            room_a r j c (omega (arith, shared)) hj
          ∙ gemm_naive_entry f fm fn fk left right 0 fn beta fits r j c hr hj
          ∙ loop-ext fk _ _ _ (λ q x hq.
            ap₂ (λ y z. f.add x (f.mul (la y) (lb z))) (a_place r q hr hq) (b_place q j hq hj)))

grow : (a b : ℕ) → 0 < a → b ≤ a * b
grow a b h = grind arith

mul_mono : (p q p' q' : ℕ) → p ≤ p' → q ≤ q' → p * q ≤ p' * q'
mul_mono p q p' q' h k = grind arith

pub part_room :
    (m n a fa b fb t u : ℕ)
    → m ≡ a * fa
    → n ≡ b * fb
    → t < a
    → u < b
    → m * n < 2 ^ 32
    → fa * fb < 2 ^ 32
part_room m n a fa b fb t u em en ht hu room = omega (
  arith,
  mul_mono fa fb m n (omega (arith, grow a fa (omega arith)))
      (omega (arith, grow b fb (omega arith))),
)

module _ {A : Type 0} (f : Float A) (one : HasOne f) (cores : ℕ) (g : Call) (a b : ℕ → A)
    (shape : Shape cores g) (mt nt : ℕ) (hm : mt < g.m_tiles) (hn : nt < g.n_tiles) where
  abbrev fm : ℕ
  fm = frac_m g

  abbrev fn : ℕ
  fn = frac_n g

  abbrev fk : ℕ
  fk = frac_k g

  -- One summand of the sum for the element `(r, j)` of the tile, by the column of the whole first matrix
  abbrev summand : ℕ → ℕ → ℕ → A → A
  summand r j q x = f.add x (f.mul (a ((mt * fm + r) * g.k + q)) (b (q * g.n + (nt * fn + j))))

  module _ (kt : ℕ) (hk : kt < g.k_tiles) (r j : ℕ) (hr : r < fm) (hj : j < fn) (s : Arrays A) where
    abbrev local_a : ℕ → A
    local_a = load_tile fm fk g.k mt kt a s.local_a

    abbrev local_b : ℕ → A
    local_b = load_tile fk fn g.n kt nt b s.local_b

    k_round_sum :
        (beta : A) (c : ℕ → A)
        → cluster_gemm f cores fm fn fk
            (record { elements = local_a; start = 0; ld = fk; transposed = g.transa })
            (record {
              elements = local_b;
              start = 0;
              ld = if g.transb then fk else fn;
              transposed = g.transb;
            })
            0
            fn
            beta
            c
            (r * fn + j)
          ≡ loop fk (λ q. summand r j (kt * fk + q)) (multiply_opt f (c (r * fn + j)) beta)
    k_round_sum beta c =
        rw (shape.plain_a, shape.plain_b)
          (packed_product f cores fm fn fk local_a local_b shape.some_cores shape.shared
              (part_room g.m g.k g.m_tiles fm g.k_tiles fk mt kt shape.whole_m shape.whole_k hm hk
                shape.room_a)
              (part_room g.k g.n g.k_tiles fk g.n_tiles fn kt nt shape.whole_k shape.whole_n hk hn
                shape.room_b)
              (part_room g.m g.n g.m_tiles fm g.n_tiles fn mt nt shape.whole_m shape.whole_n hm hn
                shape.room_c)
              beta c r j hr hj
            ∙ loop-ext fk _ _ _ (λ q x hq.
              ap₂ (λ y z. f.add x (f.mul y z)) (load_tile_at fm fk g.k mt kt a s.local_a r q hr hq)
                (load_tile_at fk fn g.n kt nt b s.local_b q j hq hj)))

  abbrev round : ℕ → Arrays A → Arrays A
  round = k_round f cores g a b mt nt

  -- The value that the element `(r, j)` of the tile has before
  abbrev spot : ℕ → ℕ → ℕ
  spot r j = in_array fm fn g.n mt nt r j

  first_round :
      (r j : ℕ) (s : Arrays A)
      → 0 < g.k_tiles
      → r < fm
      → j < fn
      → (round 0 s).local_c (r * fn + j)
        ≡ loop fk
            (λ q. summand r j (0 * fk + q))
            (multiply_opt f (s.c (spot r j)) (f.of_nat g.beta))
  unfolding k_round
  first_round r j s hk hr hj =
      k_round_sum 0 hk r j hr hj s (f.of_nat g.beta) (load_tile fm fn g.n mt nt s.c s.local_c)
      ∙ ap (λ v. loop fk (λ q. summand r j (0 * fk + q)) (multiply_opt f v (f.of_nat g.beta)))
          (load_tile_at fm fn g.n mt nt s.c s.local_c r j hr hj)

  times_one : (x : A) → multiply_opt f x (f.of_nat 1) ≡ x
  unfolding multiply_opt
  times_one x = simp one.nonzero (one.one x)

  suc_nonzero : (n : ℕ) → (suc n == 0) ≡ false
  suc_nonzero n = ground arith

  later_round :
      (kt r j : ℕ) (s : Arrays A)
      → suc kt < g.k_tiles
      → r < fm
      → j < fn
      → (round (suc kt) s).local_c (r * fn + j)
        ≡ loop fk (λ q. summand r j (suc kt * fk + q)) (s.local_c (r * fn + j))
  unfolding k_round
  later_round kt r j s hk hr hj = simp (suc_nonzero kt) (
      k_round_sum (suc kt) hk r j hr hj s (f.of_nat 1) s.local_c
      ∙ ap (loop fk (λ q. summand r j (suc kt * fk + q))) (times_one (s.local_c (r * fn + j))))

  round_c : (kt : ℕ) (s : Arrays A) → (round kt s).c ≡ s.c
  unfolding k_round
  round_c kt s = refl

  -- After `n` rounds the tile holds the sum over the columns that they have covered.
  rounds :
      (n r j : ℕ) (s : Arrays A)
      → n < g.k_tiles
      → r < fm
      → j < fn
      → (loop (suc n) round s).local_c (r * fn + j)
        ≡ loop
            (suc n)
            (λ kt. loop fk (λ q. summand r j (kt * fk + q)))
            (multiply_opt f (s.c (spot r j)) (f.of_nat g.beta))
  unfolding loop
  rounds zero r j s hn hr hj = first_round r j s hn hr hj
  rounds (suc n) r j s hn hr hj =
      later_round n r j (loop (suc n) round s) hn hr hj
      ∙ ap (loop fk (λ q. summand r j (suc n * fk + q))) (rounds n r j s (omega arith) hr hj)

  -- All rounds together cover all columns.
  pub tile_sum :
      (r j : ℕ) (s : Arrays A)
      → r < fm
      → j < fn
      → (loop g.k_tiles round s).local_c (r * fn + j)
        ≡ loop g.k (λ q. summand r j q) (multiply_opt f (s.c (spot r j)) (f.of_nat g.beta))
  tile_sum r j s hr hj =
      let e : suc (g.k_tiles - 1) ≡ g.k_tiles = omega (arith, shape.some_k) in
      let v = multiply_opt f (s.c (spot r j)) (f.of_nat g.beta) in
      subst (λ n. (loop n round s).local_c (r * fn + j) ≡ loop g.k (summand r j) v) e
        (rounds (g.k_tiles - 1) r j s (omega arith) hr hj
          ∙ loop-nest (suc (g.k_tiles - 1)) fk (summand r j) v
          ∙ ap (λ (n : ℕ). loop n (summand r j) v) (ap (λ (n : ℕ). n * fk) e ∙ sym shape.whole_k))
