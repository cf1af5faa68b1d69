-- ===== src/Snax/Convolution/Check.antt =====
-- The check of the convolution's result finds every difference (snax-streamer-gemm-conv-lib.c).
use snax_rebase.Base.{
  ℕ, zero, suc, ◌+◌, ◌^◌, ◌≤◌, ◌<◌, ◌≡◌, ◌↔◌, refl, not, ◌==◌, if◌then◌else◌, arith, ℕ_discrete,
  subst, sym,
}
use snax_rebase.Base.Loops.{loop}
use snax_rebase.Base.Words.{add_u32}
use snax_rebase.Snax.Convolution.{check_conv_result, conv_rounds}

-- The first `n` elements are the same.
abbrev pub Agree : ℕ → (ℕ → ℕ) → (ℕ → ℕ) → Type 0
Agree n f g = (i : ℕ) → i < n → f i ≡ g i

abbrev mismatches : (ℕ → ℕ) → (ℕ → ℕ) → ℕ → ℕ
mismatches f g n = loop n (λ i err. if not (f i == g i) then add_u32 err 1 else err) 0

mismatches-le : (f g : ℕ → ℕ) (n : ℕ) → n < 2 ^ 32 → mismatches f g n ≤ n
unfolding loop
mismatches-le f g zero h = omega arith
mismatches-le f g (suc n) h = ground (arith, mismatches-le f g n (omega arith))

Agree-none : (f g : ℕ → ℕ) (n : ℕ) → Agree n f g → mismatches f g n ≡ 0
unfolding loop
Agree-none f g zero h = refl
Agree-none f g (suc n) h =
    ground (arith, h n (omega arith), Agree-none f g n (λ i lt. h i (omega arith)))

last_same :
    (f g : ℕ → ℕ) (n : ℕ)
    → n + 1 < 2 ^ 32
    → mismatches f g (suc n) ≡ 0
    → (f n ≡ g n) × (mismatches f g n ≡ 0)
unfolding loop
last_same f g n h e = elim (ℕ_discrete (f n) (g n)) [
  | yes same ↦ (same, ground (arith, e, same))
  | no differ ↦ absurd (ground (arith, e, differ, mismatches-le f g n))
]

none-Agree : (f g : ℕ → ℕ) (n : ℕ) → n < 2 ^ 32 → mismatches f g n ≡ 0 → Agree n f g
none-Agree f g zero h e i lt = absurd (omega arith)
none-Agree f g (suc n) h e i lt = elim (ℕ_discrete i n) [
  | yes same ↦ subst (λ k. f k ≡ g k) (sym same) (last_same f g n (omega arith) e).0
  | no other ↦ none-Agree f g n (omega arith) (last_same f g n (omega arith) e).1 i (omega arith)
]

conv_rounds-lt : (batch m n : ℕ) → conv_rounds batch m n < 2 ^ 32
unfolding conv_rounds
conv_rounds-lt batch m n = ground arith

-- `check_conv_result` counts no error exactly when the output and the golden data agree in all the
-- `Batch * M * N * 64` elements that it visits: the count does not wrap around to 0.
pub check_conv_zero :
    (output golden : ℕ → ℕ) (batch m n : ℕ)
    → (check_conv_result output golden batch m n ≡ 0) ↔ Agree (conv_rounds batch m n) output golden
unfolding check_conv_result
check_conv_zero output golden batch m n = (
  none-Agree output golden (conv_rounds batch m n) (conv_rounds-lt batch m n),
  Agree-none output golden (conv_rounds batch m n),
)
