-- ===== src/Snax/Simd.antt =====
-- The reference of the SIMD accelerator, `scale_quant_clamp_c_spec`
-- (streamer-simd/src/snax-streamer-simd-lib.c). An `int8_t` argument is the word that it is promoted to.
pub mod Clamp
use snax_rebase.Base.{ℕ, ◌+◌, ◌-◌, ◌*◌, ◌/◌, ◌%◌, ◌^◌, Bool, ltb, leb, if◌then◌else◌}
use snax_rebase.Base.Words.{u32, add_u32, sub_u32, is_neg, lt_i32}

-- `(int64_t)` of a word, and `(int8_t)` of a word, promoted again
abbrev pub widen : ℕ → ℕ
widen a = if is_neg a then a + (2 ^ 64 - 2 ^ 32) else a

abbrev pub cast_i8 : ℕ → ℕ
cast_i8 a = if ltb (a % 2 ^ 8) (2 ^ 7) then a % 2 ^ 8 else a % 2 ^ 8 + (2 ^ 32 - 2 ^ 8)

-- `>>` on an `int64_t` and on an `int32_t`
abbrev pub shift_i64 : ℕ → ℕ → ℕ
shift_i64 a k = if leb (2 ^ 63) a then a / 2 ^ k + (2 ^ 64 - 2 ^ (64 - k)) else a / 2 ^ k

abbrev pub halve_i32 : ℕ → ℕ
halve_i32 a = if is_neg a then a / 2 + 2 ^ 31 else a / 2

-- `var1` after the first shift, which `shift` from 1 to 63 makes defined
unfoldable pub scaled : ℕ → ℕ → ℕ → ℕ → ℕ
scaled input input_zp multiplier shift =
    let var0 = widen (sub_u32 input input_zp) * widen multiplier % 2 ^ 64 in
    u32 (shift_i64 var0 (shift - 1))

-- `var1` before the clamping
unfoldable pub rounded : ℕ → ℕ → Bool → ℕ
rounded var1 output_zp double_round =
    let far = if is_neg var1 then sub_u32 var1 1 else add_u32 var1 1 in
    add_u32 (halve_i32 (if double_round then far else var1)) output_zp

unfoldable pub clamped : ℕ → ℕ → ℕ → ℕ
clamped var1 max_int min_int =
    let low = if lt_i32 max_int var1 then max_int else var1 in
    if lt_i32 low min_int then min_int else low

unfoldable pub scale_quant_clamp : ℕ → ℕ → ℕ → ℕ → ℕ → ℕ → ℕ → Bool → ℕ
scale_quant_clamp input input_zp output_zp multiplier shift max_int min_int double_round = cast_i8 (
    clamped (rounded (scaled input input_zp multiplier shift) output_zp double_round) max_int
      min_int)
