-- ===== src/Base/Bits.antt =====
-- `&` with a mask and `|` of disjoint fields, as arithmetic.
use Prim.Native.Nat.{
  ℕ, zero, suc, ◌+◌, ◌-◌, ◌*◌, ◌/◌, ◌%◌, ◌^◌, ◌≤◌, ◌<◌, min, max, digits, bit_and, bit_or,
  bit_and-bitwise, bit_or-bitwise,
}
use mathlib.Core.Path.{◌≡◌, refl, ap}
use native.Mathlib.Nat.{le_refl, pow-suc, one-le-pow, div-add-mod'}
use native.Mathlib.Omega.{arith}

-- The count of digits to go does not matter once it covers the first number.
module _ (z : ℕ → ℕ) (f : ℕ → ℕ → ℕ) where
  digits_enough : (n m a b : ℕ) → a ≤ n → a ≤ m → digits z f n a b ≡ digits z f m a b
  digits_enough zero zero a b p q = refl
  digits_enough zero (suc m) zero b p q = refl
  digits_enough (suc n) zero zero b p q = refl
  digits_enough (suc n) (suc m) zero b p q = refl
  digits_enough zero (suc m) (suc a) b p q = absurd (omega arith)
  digits_enough (suc n) zero (suc a) b p q = absurd (omega arith)
  digits_enough (suc n) (suc m) (suc a) b p q =
      omega (arith, digits_enough n m (suc a / 2) (b / 2) (omega arith) (omega arith))

pub bit_and-halve : (a b : ℕ) → bit_and a b ≡ bit_and (a / 2) (b / 2) * 2 + min (a % 2) (b % 2)
bit_and-halve zero b = simp bit_and-bitwise (omega arith)
bit_and-halve (suc a) b = omega (
  arith,
  bit_and-bitwise (suc a) b,
  bit_and-bitwise (suc a / 2) (b / 2),
  digits_enough (λ _. 0) min a (suc a / 2) (suc a / 2) (b / 2) (omega arith) (le_refl _),
)

pub bit_or-halve : (a b : ℕ) → bit_or a b ≡ bit_or (a / 2) (b / 2) * 2 + max (a % 2) (b % 2)
bit_or-halve zero b = simp bit_or-bitwise (omega arith)
bit_or-halve (suc a) b = omega (
  arith,
  bit_or-bitwise (suc a) b,
  bit_or-bitwise (suc a / 2) (b / 2),
  digits_enough (λ y. y) max a (suc a / 2) (suc a / 2) (b / 2) (omega arith) (le_refl _),
)

module _ where
  bit_and-zero_below : (n a : ℕ) → a ≤ n → bit_and a 0 ≡ 0
  bit_and-zero_below n zero h = refl
  bit_and-zero_below zero (suc a) h = absurd (omega arith)
  bit_and-zero_below (suc n) (suc a) h =
      omega (arith, bit_and-halve (suc a) 0, bit_and-zero_below n (suc a / 2) (omega arith))

  bit_or-zero_below : (n a : ℕ) → a ≤ n → bit_or a 0 ≡ a
  bit_or-zero_below n zero h = refl
  bit_or-zero_below zero (suc a) h = absurd (omega arith)
  bit_or-zero_below (suc n) (suc a) h =
      omega (arith, bit_or-halve (suc a) 0, bit_or-zero_below n (suc a / 2) (omega arith))

double_pow : (q k : ℕ) → q * 2 ^ suc k ≡ 2 * (q * 2 ^ k)
double_pow q k = omega (arith, ap (λ (t : ℕ). q * t) (pow-suc 2 k))

-- A word whose low `k` bits are clear, joined with a field of `k` bits.
pub bit_or-field : (k q r : ℕ) → r < 2 ^ k → bit_or (q * 2 ^ k) r ≡ q * 2 ^ k + r
bit_or-field zero q r h =
    let e : r ≡ 0 = omega arith in ground (arith, e, bit_or-zero_below (q * 2 ^ 0) (q * 2 ^ 0))
bit_or-field (suc k) q r h = ground (
  arith,
  bit_or-halve (q * 2 ^ suc k) r,
  double_pow q k,
  bit_or-field k q (r / 2) (omega (arith, pow-suc 2 k)),
)

bit_and-low : (k q r : ℕ) → r < 2 ^ k → bit_and (q * 2 ^ k + r) (2 ^ k - 1) ≡ r
bit_and-low zero q r h =
    let e : r ≡ 0 = omega arith in
    ground (arith, e, bit_and-zero_below (q * 2 ^ 0 + r) (q * 2 ^ 0 + r))
bit_and-low (suc k) q r h = ground (
  arith,
  bit_and-halve (q * 2 ^ suc k + r) (2 ^ suc k - 1),
  double_pow q k,
  pow-suc 2 k,
  bit_and-low k q (r / 2),
)

-- A mask of `k` ones keeps the remainder by `2 ^ k`.
pub bit_and-mask : (k a : ℕ) → bit_and a (2 ^ k - 1) ≡ a % 2 ^ k
bit_and-mask k a =
    ground (arith, one-le-pow k 2, div-add-mod' a (2 ^ k), bit_and-low k (a / 2 ^ k) (a % 2 ^ k))

-- A word below `2 ^ 32` without its low three bits.
pub bit_and-clear_three : (a : ℕ) → a < 2 ^ 32 → bit_and a 0xffff_fff8 ≡ a - a % 8
bit_and-clear_three a h = omega (
  arith,
  bit_and-halve a 0xffff_fff8,
  bit_and-halve (a / 2) 0x7fff_fffc,
  bit_and-halve (a / 2 / 2) 0x3fff_fffe,
  bit_and-mask 29 (a / 2 / 2 / 2),
)
