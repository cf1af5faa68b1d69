-- ===== src/Start/Exit.antt =====
-- The exit code of the program (sw/snRuntime/src/start.c, sync.h).
use snax_rebase.Base.{
  ℕ, ◌+◌, ◌*◌, ◌%◌, ◌^◌, ◌<◌, ◌≡◌, ◌↔◌, refl, sym, ◌∙◌, ap, List, [], ◌∷◌, some, bit_or, arith,
}
use snax_rebase.Base.Bits.{bit_or-field}
use snax_rebase.Base.Words.{add_u32, mul_u32}
use snax_rebase.Start.{all_to_all_reduction, exit_default}
use snax_rebase.Team.{Config, global_core_idx}

-- The values of all cores added up, without a bound
unfoldable pub sum : List ℕ → ℕ
sum [] = 0
sum (x ∷ xs) = x + sum xs

reduction_value :
    (xs : List ℕ) (shared : ℕ)
    → shared < 2 ^ 32
    → all_to_all_reduction shared xs ≡ (shared + sum xs) % 2 ^ 32
unfolding all_to_all_reduction sum
reduction_value [] shared h = omega arith
reduction_value (x ∷ xs) shared h =
    reduction_value xs (add_u32 shared x) (omega arith) ∙ omega arith

-- `(e << 1) | 1`
exit_word : (e : ℕ) → bit_or (mul_u32 e 2) 1 ≡ e % 2 ^ 31 * 2 + 1
exit_word e =
    ap (λ (q : ℕ). bit_or q 1) (doubled e)
    ∙ bit_or-field 1 (e % 2 ^ 31) 1 (omega arith)
    ∙ omega arith
  where
    doubled : (e : ℕ) → mul_u32 e 2 ≡ e % 2 ^ 31 * 2 ^ 1
    doubled e = omega arith

-- When every core has added its exit code, in any order, core 0 reports success, the word 1, exactly
-- if the sum of all cores' codes is a multiple of 2^31; in general it reports twice the sum modulo
-- 2^31, plus 1. The shared word is 0 before.
pub exit_code_sum :
    (c : Config) (hartid : ℕ) (codes : List ℕ)
    → global_core_idx c hartid ≡ 0
    → let written = exit_default c hartid (all_to_all_reduction 0 codes) in
      (written ≡ some (sum codes % 2 ^ 31 * 2 + 1))
      × ((written ≡ some 1) ↔ (sum codes % 2 ^ 31 ≡ 0))
unfolding exit_default
exit_code_sum c hartid codes first =
    let value : exit_default c hartid (all_to_all_reduction 0 codes)
        ≡ some (sum codes % 2 ^ 31 * 2 + 1) =
      simp (first, exit_word)
        (ap (λ (q : ℕ). some (q * 2 + 1)) (omega (arith, reduction_value codes 0))) in
    (value, (λ e. word_one (sum codes % 2 ^ 31) (sym value ∙ e), λ e. value ∙ rw e refl))
  where
    word_one : (q : ℕ) → some (q * 2 + 1) ≡ some 1 → q ≡ 0
    word_one q e = ground arith
