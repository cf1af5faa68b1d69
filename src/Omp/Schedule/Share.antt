-- ===== src/Omp/Schedule/Share.antt =====
-- The arithmetic of equal shares: `size` iterations over `n` threads, the first ones taking one
-- more.
use snax_rebase.Base.{ℕ, zero, suc, ◌+◌, ◌-◌, ◌*◌, ◌/◌, ◌%◌, ◌≤◌, ◌<◌, min, ◌≡◌, arith, dec_lt, ap}
use native.Mathlib.Nat.{div-add-mod', zero-add, mul_comm}
use native.Mathlib.Numerals.{add-one}

-- The iterations of the threads before thread `k`.
unfoldable pub share : ℕ → ℕ → ℕ → ℕ
share size n k = k * (size / n) + min k (size % n)

pub share-zero : (size n : ℕ) → share size n 0 ≡ 0
unfolding share
share-zero size n = omega arith

pub share_all : (size n : ℕ) → 0 < n → share size n n ≡ size
unfolding share
share_all size n h = omega (arith, div-add-mod' size n, mul_comm n (size / n))

pub share_next :
    (size n k : ℕ) → share size n (k + 1) ≡ share size n k + (size / n + min 1 (size % n - k))
unfolding share
share_next size n k = omega arith

-- The thread that an offset falls to, among the first `k`.
pub share_find :
    (size n k d : ℕ)
    → d < share size n k
    → (i : ℕ) × (i < k) × (share size n i ≤ d) × (d < share size n (i + 1))
share_find size n zero d h = absurd (omega (arith, share-zero size n))
share_find size n (suc k) d h = elim (dec_lt d (share size n k)) [
  | yes below ↦ let (i, lt, lo, hi) = share_find size n k d below in (i, omega arith, lo, hi)
  | no above ↦ (k, omega arith, omega arith, omega (arith, ap (share size n) (add-one k)))
]

share_mono : (size n d i : ℕ) → share size n i ≤ share size n (d + i)
share_mono size n zero i = omega (arith, ap (share size n) (zero-add i))
share_mono size n (suc d) i = omega (
  arith,
  share_mono size n d i,
  share_next size n (d + i),
  shift (suc d + i) (d + i + 1) (omega arith),
)
  where
    shift : (a b : ℕ) → a ≡ b → share size n a ≡ share size n b
    shift a b e = ap (share size n) e

pub share_le : (size n i j : ℕ) → i ≤ j → share size n i ≤ share size n j
share_le size n i j h = omega (arith, share_mono size n (j - i) i, ap (share size n) (rejoin i j h))
  where
    rejoin : (i j : ℕ) → i ≤ j → j - i + i ≡ j
    rejoin i j h = omega arith

-- An offset falls to one thread only.
pub share_unique :
    (size n i j d : ℕ)
    → share size n i ≤ d
    → d < share size n (i + 1)
    → share size n j ≤ d
    → d < share size n (j + 1)
    → i ≡ j
share_unique size n i j d a b c e = elim (dec_lt i j) [
  | yes lt ↦ absurd (omega (arith, share_le size n (i + 1) j (omega arith)))
  | no ge ↦ elim (dec_lt j i) [
    | yes lt ↦ absurd (omega (arith, share_le size n (j + 1) i (omega arith)))
    | no le ↦ omega arith
  ]
]
