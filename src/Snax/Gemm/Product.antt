-- ===== src/Snax/Gemm/Product.antt =====
-- The reference product of snax-gemm-lib.c against sums.
use snax_rebase.Base.{
  ℕ, zero, suc, ◌+◌, ◌-◌, ◌*◌, ◌/◌, ◌%◌, ◌^◌, ◌<◌, ◌≡◌, refl, ◌∙◌, ap, Bool, true, false, ◌==◌, ltb,
  if◌then◌else◌, arith,
}
use native.Mathlib.Nat.{div-add-mod', add_comm, mul_comm, mod-eq_of_lt}
use snax_rebase.Base.Loops.{loop, loop-ext, loop-nest, loop_entries, total, row_of, column_of}
use snax_rebase.Base.Memory.{update}
use snax_rebase.Base.Words.{u32, add_u32}
use snax_rebase.Snax.Gemm.{Operands, term, base_gemm_cell, base_gemm}

add_u32-u32 : (a b d : ℕ) → add_u32 (u32 (a + b)) d ≡ u32 (a + (b + d))
add_u32-u32 a b d = omega arith

merge :
    (t : Bool) (a b d e z : ℕ)
    → (if t then add_u32 (u32 (a + b)) d else (if t then e else z))
      ≡ (if t then u32 (a + (b + d)) else z)
merge true a b d e z = add_u32-u32 a b d
merge false a b d e z = refl

here : (x a b : ℕ) → (if x == x then a else b) ≡ a
here x a b = ground arith

-- Additions that wrap give the wrapped sum.
accumulates :
    (k : ℕ) (f : ℕ → ℕ) (x y : ℕ) (c : ℕ → ℕ)
    → loop (suc k) (λ s c. update c x (add_u32 (c x) (f s))) c y
      ≡ (if x == y then u32 (c x + total (suc k) f) else c y)
unfolding loop total
accumulates zero f x y c = ap (λ v. if x == y then u32 (c x + v) else c y) (omega arith)
accumulates (suc k) f x y c =
    ap
      (λ v.
        if x == y
        then add_u32 v (f (suc k))
        else loop (suc k) (λ s c. update c x (add_u32 (c x) (f s))) c y)
      (accumulates k f x x c ∙ here x (u32 (c x + total (suc k) f)) (c x))
    ∙ ap (λ v. if x == y then add_u32 (u32 (c x + total (suc k) f)) (f (suc k)) else v)
        (accumulates k f x y c)
    ∙ merge (x == y) (c x) (total (suc k) f) (f (suc k)) (u32 (c x + total (suc k) f)) (c y)

cell_entry :
    (k n : ℕ) (o : Operands) (clear : Bool) (i j : ℕ) (c : ℕ → ℕ) (y : ℕ)
    → base_gemm_cell (suc k) n o clear i j c y ≡ (
        if i * n + j == y
        then u32 ((if clear then 0 else c (i * n + j)) + total (suc k) (term (suc k) o i j))
        else c y)
unfolding base_gemm_cell
cell_entry k n o true i j c y =
    accumulates k (term (suc k) o i j) (i * n + j) y (update c (i * n + j) 0) ∙ ground arith
cell_entry k n o false i j c y = accumulates k (term (suc k) o i j) (i * n + j) y c

-- The body of the loops at position `x` of the matrix, row by row
cell_at : ℕ → ℕ → Operands → Bool → ℕ → (ℕ → ℕ) → ℕ → ℕ
cell_at k n o clear x = base_gemm_cell k n o clear (x / n) (x % n)

cell_at_entry :
    (k n : ℕ) (o : Operands) (clear : Bool) (x : ℕ) (c : ℕ → ℕ) (y : ℕ)
    → cell_at (suc k) n o clear x c y ≡ (
        if x == y
        then u32 ((if clear then 0 else c x) + total (suc k) (term (suc k) o (x / n) (x % n)))
        else c y)
unfolding cell_at
cell_at_entry k n o clear x c y =
    cell_entry k n o clear (x / n) (x % n) c y
    ∙ ap
        (λ z.
          if z == y
          then u32 ((if clear then 0 else c z) + total (suc k) (term (suc k) o (x / n) (x % n)))
          else c y)
        (div-add-mod' x n)

one_loop :
    (m k n : ℕ) (o : Operands) (clear : Bool) (c : ℕ → ℕ)
    → base_gemm m k n o clear c ≡ loop (m * n) (cell_at k n o clear) c
unfolding base_gemm cell_at
one_loop m k n o clear c =
    loop-ext m _ _ c (λ i d lt.
      loop-ext n _ _ d (λ j e in_row. rw (row_of i j n in_row, column_of i j n in_row) refl))
    ∙ loop-nest m n (cell_at k n o clear) c

-- What a factor leaves of another modulo 2^32 does not depend on its multiples of 2^32.
u32-mul : (a b : ℕ) → u32 (u32 a * b) ≡ u32 (a * b)
u32-mul a b =
    let whole : a ≡ u32 a + a / 2 ^ 32 * 2 ^ 32 = omega arith in
    let e : a * b ≡ u32 a * b + a / 2 ^ 32 * b * 2 ^ 32 =
      ap (λ (t : ℕ). t * b) whole ∙ grind arith in
    omega (arith, e)

u32-mul_both : (a b : ℕ) → u32 (u32 a * u32 b) ≡ u32 (a * b)
u32-mul_both a b =
    u32-mul a (u32 b) ∙ ap u32 (mul_comm a (u32 b)) ∙ u32-mul b a ∙ ap u32 (mul_comm b a)

term_lem :
    (k : ℕ) (o : Operands) (i j s : ℕ)
    → o.subtraction_a < 2 ^ 32
    → o.subtraction_b < 2 ^ 32
    → term k o i j s
      ≡ u32 (
          (o.a (i * k + s) + (2 ^ 32 - o.subtraction_a))
          * (o.b (j * k + s) + (2 ^ 32 - o.subtraction_b)))
unfolding term
term_lem k o i j s small_a small_b =
    let ea : u32 o.subtraction_a ≡ o.subtraction_a = mod-eq_of_lt small_a in
    let eb : u32 o.subtraction_b ≡ o.subtraction_b = mod-eq_of_lt small_b in
    rw (ea, eb, add_comm s (j * k))
      (u32-mul_both (o.a (i * k + s) + (2 ^ 32 - o.subtraction_a))
        (o.b (j * k + s) + (2 ^ 32 - o.subtraction_b)))

total-u32 :
    (n z : ℕ) (f g : ℕ → ℕ)
    → ((s : ℕ) → f s ≡ u32 (g s))
    → u32 (z + total n f) ≡ u32 (z + total n g)
unfolding total
total-u32 zero z f g h = refl
total-u32 (suc n) z f g h = omega (arith, total-u32 n z f g h, h n)

-- With at least one column in the first matrix, and subtractions that are words, `base_gemm` leaves
-- in every element of the product, on top of what the element held unless it is cleared, the sum over
-- `s` of the products of the element `(i, s)` of the first matrix, less its subtraction, and the
-- element `(s, j)` of the second, less its own, modulo 2^32, where `i` and `j` are the row and the
-- column of the element and the columns of the second matrix lie one after the other; it changes no
-- other element. The subtractions are written as additions of the complement to 2^32.
pub base_gemm_product :
    (m k n : ℕ) (o : Operands) (clear : Bool) (c : ℕ → ℕ) (x : ℕ)
    → 0 < k
    → o.subtraction_a < 2 ^ 32
    → o.subtraction_b < 2 ^ 32
    → base_gemm m k n o clear c x ≡ (
        if ltb x (m * n)
        then u32 (
            (if clear then 0 else c x)
            + total k (λ s.
              (o.a (x / n * k + s) + (2 ^ 32 - o.subtraction_a))
              * (o.b (x % n * k + s) + (2 ^ 32 - o.subtraction_b))))
        else c x)
base_gemm_product m zero n o clear c x h small_a small_b = absurd (omega arith)
base_gemm_product m (suc k) n o clear c x h small_a small_b =
    ap (λ f. f x) (one_loop m (suc k) n o clear c)
    ∙ loop_entries (m * n) (cell_at (suc k) n o clear)
        (λ x v. u32 ((if clear then 0 else v) + total (suc k) (term (suc k) o (x / n) (x % n)))) c x
        (λ x c y lt. cell_at_entry k n o clear x c y)
    ∙ ap (λ v. if ltb x (m * n) then v else c x)
        (total-u32 (suc k) (if clear then 0 else c x) (term (suc k) o (x / n) (x % n))
          (λ s.
            (o.a (x / n * suc k + s) + (2 ^ 32 - o.subtraction_a))
            * (o.b (x % n * suc k + s) + (2 ^ 32 - o.subtraction_b)))
          (λ s. term_lem (suc k) o (x / n) (x % n) s small_a small_b))
