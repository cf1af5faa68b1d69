-- ===== src/Base/Exact.antt =====
-- Where the operations on words do not wrap they are those on numbers.
use Prim.Native.Nat.{ℕ, ◌+◌, ◌-◌, ◌*◌, ◌/◌, ◌%◌, ◌^◌, ◌≤◌, ◌<◌}
use mathlib.Core.Path.{◌≡◌, refl}
use mathlib.Core.Bool.{false, xor}
use native.Mathlib.Nat.{div-le_self, mod-eq_of_lt}
use native.Mathlib.Omega.{arith}
use snax_rebase.Base.Tests.{ltb, leb, ◌==◌}
use snax_rebase.Base.Words.{
  add_u32, sub_u32, mul_u32, div_u32, div_i32, mod_i32, lt_i32, le_i32, is_neg,
}

pub add_exact : (a b : ℕ) → a + b < 2 ^ 32 → add_u32 a b ≡ a + b
add_exact a b h = omega arith

pub sub_exact : (a b : ℕ) → b ≤ a → a < 2 ^ 32 → sub_u32 a b ≡ a - b
sub_exact a b h k = omega arith

pub mul_exact : (a b : ℕ) → a * b < 2 ^ 32 → mul_u32 a b ≡ a * b
mul_exact a b h = mod-eq_of_lt h

pub div_u32_exact : (a b : ℕ) → 0 < b → div_u32 a b ≡ a / b
div_u32_exact a b h = ground arith

is_neg_small : (a : ℕ) → a < 2 ^ 31 → is_neg a ≡ false
is_neg_small a h = ground arith

ne_zero : (b : ℕ) → 0 < b → (b == 0) ≡ false
ne_zero b h = ground arith

pub div_i32_exact : (a b : ℕ) → a < 2 ^ 31 → 0 < b → b < 2 ^ 31 → div_i32 a b ≡ a / b
unfolding xor
div_i32_exact a b h p k =
    rw (ne_zero b p, is_neg_small a h, is_neg_small b k) (omega (arith, div-le_self a b))

pub mod_i32_exact : (a b : ℕ) → a < 2 ^ 31 → 0 < b → b < 2 ^ 31 → mod_i32 a b ≡ a % b
mod_i32_exact a b h p k = rw (ne_zero b p, is_neg_small a h, is_neg_small b k) refl

pub lt_i32_exact : (a b : ℕ) → a < 2 ^ 31 → b < 2 ^ 31 → lt_i32 a b ≡ ltb a b
lt_i32_exact a b h k = ground arith

pub le_i32_exact : (a b : ℕ) → a < 2 ^ 31 → b < 2 ^ 31 → le_i32 a b ≡ leb a b
le_i32_exact a b h k = ground arith
