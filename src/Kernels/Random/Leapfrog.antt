-- ===== src/Kernels/Random/Leapfrog.antt =====
-- The leapfrog method of sw/apps/prng/lcg.h.
use snax_rebase.Base.{
  ℕ, zero, suc, ◌+◌, ◌*◌, ◌/◌, ◌%◌, ◌^◌, ◌<◌, ◌≡◌, refl, sym, ap, ap₂, ◌∙◌, arith,
}
use snax_rebase.Base.Loops.{loop}
use snax_rebase.Base.Words.{u32}
use snax_rebase.Kernels.Random.{leapfrog_loop, leapfrog_constants, right_seed, lcg}
use native.Mathlib.Nat.{
  div-add-mod', add-mul-mod_self_right, add-mod, mod-add-mod, mod-eq_of_lt, mul_comm,
}

split_product : (q r y m : ℕ) → (q * m + r) * y ≡ r * y + q * y * m
split_product q r y m = grind arith

-- A product of words depends on its factors as words.
mod-mul_left : (x y m : ℕ) → x % m * y % m ≡ x * y % m
mod-mul_left x y m = sym (
    ap (λ z. z * y % m) (sym (div-add-mod' x m))
    ∙ ap (λ z. z % m) (split_product (x / m) (x % m) y m)
    ∙ add-mul-mod_self_right (x % m * y) (x / m * y) m)

mod-mul_right : (x y m : ℕ) → x * (y % m) % m ≡ x * y % m
mod-mul_right x y m =
    ap (λ z. z % m) (mul_comm x (y % m)) ∙ mod-mul_left y x m ∙ ap (λ z. z % m) (mul_comm y x)

-- A linear form in words, computed with and without the wrap-around in between
linear : (x y c m : ℕ) → (x * y % m + c % m) % m ≡ (x * y + c) % m
linear x y c m = sym (add-mod (x * y) c m)

leap_terms : (x a c p s : ℕ) → x * (p * a) + (s + p) * c ≡ (x * a + c) * p + s * c
leap_terms x a c p s = grind arith

-- One step with the constants of one more sequence is a step of the generator, then one with the
-- constants before.
leap_mod :
    (x a c p s m : ℕ)
    → (x * (p * a % m) % m + (s + p) % m * c % m) % m
      ≡ ((x * a % m + c) % m * p % m + s * c % m) % m
leap_mod x a c p s m =
    ap₂ (λ y z. (y + z) % m) (mod-mul_right x (p * a) m) (mod-mul_left (s + p) c m)
    ∙ linear x (p * a) ((s + p) * c) m
    ∙ ap (λ y. y % m) (leap_terms x a c p s)
    ∙ add-mod ((x * a + c) * p) (s * c) m
    ∙ ap (λ y. (y + s * c % m) % m)
        (sym (mod-mul_left (x * a + c) p m) ∙ ap (λ y. y * p % m) (sym (mod-add-mod (x * a) m c)))

module _ (a c : ℕ) where
  -- The first step may as well be taken first.
  pub right_seed-suc : (n x : ℕ) → right_seed x a c (suc n) ≡ right_seed (lcg a c x) a c n
  unfolding right_seed lcg loop
  right_seed-suc zero x = refl
  right_seed-suc (suc n) x = ap (lcg a c) (right_seed-suc n x)

  pub right_seed-add :
      (m n x : ℕ) → right_seed x a c (m + n) ≡ right_seed (right_seed x a c n) a c m
  unfolding right_seed loop lcg
  right_seed-add zero n x = ap (right_seed x a c) (omega arith)
  right_seed-add (suc m) n x =
      let e : suc m + n ≡ suc (m + n) = omega arith in rw e (ap (lcg a c) (right_seed-add m n x))

  -- One step with the constants of `leapfrog_constants` is `num_sequences` steps of the generator, as
  -- words.
  leap :
      (n x : ℕ)
      → lcg (leapfrog_constants n a c).ap (leapfrog_constants n a c).cp x ≡ u32 (right_seed x a c n)
  unfolding leapfrog_constants leapfrog_loop right_seed lcg loop
  leap zero x = omega arith
  leap (suc n) x =
      leap_mod x a c (leapfrog_loop n a).ap (leapfrog_loop n a).cp (2 ^ 32)
      ∙ leap n (lcg a c x)
      ∙ ap u32 (sym (right_seed-suc n x))

  right_seed-lt : (n x : ℕ) → x < 2 ^ 32 → right_seed x a c n < 2 ^ 32
  unfolding right_seed loop
  right_seed-lt zero x h = h
  right_seed-lt (suc n) x h = omega arith

  -- From the seed of index `k` on, `t` steps with the constants of `leapfrog_constants` for `n`
  -- sequences give what `t * n + k` steps of the generator give from the first seed: the `n` sequences
  -- deal out the numbers of the one sequence in turn.
  pub leapfrog :
      (seed n k t : ℕ)
      → seed < 2 ^ 32
      → loop t
          (λ i. lcg (leapfrog_constants n a c).ap (leapfrog_constants n a c).cp)
          (right_seed seed a c k)
        ≡ right_seed seed a c (t * n + k)
  unfolding loop
  leapfrog seed n k zero h = ap (right_seed seed a c) (omega arith)
  leapfrog seed n k (suc t) h =
      let e : suc t * n + k ≡ n + (t * n + k) = omega arith in
      ap (lcg (leapfrog_constants n a c).ap (leapfrog_constants n a c).cp) (leapfrog seed n k t h)
      ∙ leap n (right_seed seed a c (t * n + k))
      ∙ ap u32 (sym (right_seed-add n (t * n + k) seed))
      ∙ mod-eq_of_lt (right_seed-lt (n + (t * n + k)) seed h)
      ∙ ap (right_seed seed a c) (sym e)
