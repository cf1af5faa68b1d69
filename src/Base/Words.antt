-- ===== src/Base/Words.antt =====
-- 32-bit words as native numbers, with the wrap-around written out.
use Prim.Native.Nat.{ℕ, ◌+◌, ◌-◌, ◌*◌, ◌/◌, ◌%◌, ◌^◌}
use mathlib.Core.Bool.{Bool, xor}
use snax_rebase.Base.Tests.{ltb, leb, ◌==◌, if◌then◌else◌}

-- The value modulo 2^32 that a `uint32_t`, a `size_t` or a pointer of the target keeps.
abbrev pub u32 : ℕ → ℕ
u32 n = n % 2 ^ 32

-- `a + b`, `a - b` and `a * b` on words.
abbrev pub add_u32 : ℕ → ℕ → ℕ
add_u32 a b = u32 (a + b)

abbrev pub sub_u32 : ℕ → ℕ → ℕ
sub_u32 a b = u32 (a + (2 ^ 32 - u32 b))

abbrev pub mul_u32 : ℕ → ℕ → ℕ
mul_u32 a b = u32 (a * b)

-- A word that stands for a negative `int32_t`.
abbrev pub is_neg : ℕ → Bool
is_neg a = leb (2 ^ 31) a

-- `-a`, and the absolute value, on the bit pattern of an `int32_t`.
abbrev pub neg_i32 : ℕ → ℕ
neg_i32 a = u32 (2 ^ 32 - a)

abbrev pub abs_i32 : ℕ → ℕ
abs_i32 a = if is_neg a then neg_i32 a else a

-- `a < b` and `a <= b` as `int32_t`
abbrev pub lt_i32 : ℕ → ℕ → Bool
lt_i32 a b = ltb (add_u32 a (2 ^ 31)) (add_u32 b (2 ^ 31))

abbrev pub le_i32 : ℕ → ℕ → Bool
le_i32 a b = leb (add_u32 a (2 ^ 31)) (add_u32 b (2 ^ 31))

-- `a / b` and `a % b` as `int32_t`, rounded towards zero; by zero what the processor's instructions
-- give, all ones and `a`.
abbrev pub div_i32 : ℕ → ℕ → ℕ
div_i32 a b =
    if b == 0
    then 2 ^ 32 - 1
    else if xor (is_neg a) (is_neg b)
    then neg_i32 (abs_i32 a / abs_i32 b)
    else u32 (abs_i32 a / abs_i32 b)

abbrev pub mod_i32 : ℕ → ℕ → ℕ
mod_i32 a b =
    let r = abs_i32 a % abs_i32 b in if b == 0 then a else if is_neg a then neg_i32 r else r

-- `a / b` as `uint32_t`
abbrev pub div_u32 : ℕ → ℕ → ℕ
div_u32 a b = if b == 0 then 2 ^ 32 - 1 else a / b
