-- ===== src/Examples/Simd.antt =====
-- The SIMD reference on a value that it clamps from below.
use snax_rebase.Base.{◌-◌, ◌^◌, ◌≡◌, inl, inr, true, refl, arith}
use snax_rebase.Base.Words.{le_i32}
use snax_rebase.Snax.Simd.{scaled, rounded, clamped, scale_quant_clamp}
use snax_rebase.Snax.Simd.Clamp.{scale_quant_clamp_bounds}

scale_quant_clamp_bounds_example :
    let result = scale_quant_clamp 5 1000 3 70 4 127 (2 ^ 32 - 128) true in
    (result ≡ clamped (rounded (scaled 5 1000 70 4) 3 true) 127 (2 ^ 32 - 128))
    × (le_i32 (2 ^ 32 - 128) result ≡ true)
    × (le_i32 result 127 ≡ true)
scale_quant_clamp_bounds_example =
    scale_quant_clamp_bounds 5 1000 3 70 4 127 (2 ^ 32 - 128) true (inr (omega arith, omega arith))
      (inl (omega arith)) refl
