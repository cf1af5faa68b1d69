-- ===== src/Snax/Simd/Clamp.antt =====
-- The clamping at the end of the SIMD reference (snax-streamer-simd-lib.c).
use snax_rebase.Base.{ℕ, ◌-◌, ◌^◌, ◌<◌, ◌≤◌, ◌≡◌, ◌⊎◌, Bool, true, arith, sym, subst}
use snax_rebase.Base.Words.{le_i32}
use snax_rebase.Snax.Simd.{cast_i8, scaled, rounded, clamped, scale_quant_clamp}

-- A word that an `int8_t` is promoted to
abbrev pub IsInt8 : ℕ → Type 0
IsInt8 a = (a < 2 ^ 7) ⊎ ((2 ^ 32 - 2 ^ 7 ≤ a) × (a < 2 ^ 32))

-- Between two such words lie only such words.
between :
    (low a high : ℕ)
    → a < 2 ^ 32
    → IsInt8 low
    → IsInt8 high
    → le_i32 low a ≡ true
    → le_i32 a high ≡ true
    → cast_i8 a ≡ a
between low a high room l h p q = ground (arith, l, h)

clamped_bounds :
    (a high low : ℕ)
    → a < 2 ^ 32
    → IsInt8 low
    → IsInt8 high
    → le_i32 low high ≡ true
    → (le_i32 low (clamped a high low) ≡ true)
      × (le_i32 (clamped a high low) high ≡ true)
      × (clamped a high low < 2 ^ 32)
unfolding clamped
clamped_bounds a high low room l h order = ground (arith, l, h)

clamped-IsInt8 :
    (a high low : ℕ)
    → a < 2 ^ 32
    → IsInt8 low
    → IsInt8 high
    → le_i32 low high ≡ true
    → cast_i8 (clamped a high low) ≡ clamped a high low
clamped-IsInt8 a high low room l h order =
    let bounds = clamped_bounds a high low room l h order in
    between low (clamped a high low) high bounds.2 l h bounds.0 bounds.1

rounded-lt :
    (var1 output_zp : ℕ) (double_round : Bool) → rounded var1 output_zp double_round < 2 ^ 32
unfolding rounded
rounded-lt var1 output_zp double_round = omega arith

-- With bounds that are `int8_t` values in order, the reference's result is the clamped value itself,
-- which its last conversion to `int8_t` keeps, and lies between the bounds as a signed number, for every
-- input, also where the arithmetic before has wrapped around.
pub scale_quant_clamp_bounds :
    (input input_zp output_zp multiplier shift high low : ℕ) (double_round : Bool)
    → IsInt8 low
    → IsInt8 high
    → le_i32 low high ≡ true
    → let result =
        scale_quant_clamp input input_zp output_zp multiplier shift high low double_round in
      (result
        ≡ clamped
            (rounded (scaled input input_zp multiplier shift) output_zp double_round)
            high
            low)
      × (le_i32 low result ≡ true)
      × (le_i32 result high ≡ true)
unfolding scale_quant_clamp
scale_quant_clamp_bounds input input_zp output_zp multiplier shift high low double_round l h order =
    let a : ℕ = rounded (scaled input input_zp multiplier shift) output_zp double_round in
    let room : a < 2 ^ 32 =
      rounded-lt (scaled input input_zp multiplier shift) output_zp double_round in
    let bounds = clamped_bounds a high low room l h order in
    let keep : cast_i8 (clamped a high low) ≡ clamped a high low =
      clamped-IsInt8 a high low room l h order in
    (
      keep,
      subst (λ x. le_i32 low x ≡ true) (sym keep) bounds.0,
      subst (λ x. le_i32 x high ≡ true) (sym keep) bounds.1,
    )
