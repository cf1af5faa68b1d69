-- ===== src/Snax/Config/Packing.antt =====
-- The packed words read back field by field (snax-gemm-lib.c, snax-streamer-simd-lib.c).
use snax_rebase.Base.{
  ℕ, ◌+◌, ◌*◌, ◌/◌, ◌%◌, ◌^◌, ◌<◌, ◌≡◌, refl, ap₂, ◌∙◌, arith, bit_or, Bool, true, false,
  if◌then◌else◌,
}
use snax_rebase.Base.Bits.{bit_or-field}
use snax_rebase.Snax.Config.{gen_size_config, gen_csr0_config, gen_csr1_config, shl}

join : (k q r x y : ℕ) → x ≡ q * 2 ^ k → y ≡ r → r < 2 ^ k → bit_or x y ≡ q * 2 ^ k + r
join k q r x y ex ey h = ap₂ bit_or ex ey ∙ bit_or-field k q r h

-- Four bytes joined by `|`
four_bytes :
    (a b c d : ℕ)
    → a < 2 ^ 8
    → b < 2 ^ 8
    → c < 2 ^ 8
    → d < 2 ^ 8
    → bit_or (bit_or (bit_or (shl a 24) (shl b 16)) (shl c 8)) d
      ≡ a * 2 ^ 24 + b * 2 ^ 16 + c * 2 ^ 8 + d
four_bytes a b c d ha hb hc hd =
    let top =
      join 24 a (b * 2 ^ 16) (shl a 24) (shl b 16) (omega (arith, ha)) (omega (arith, hb))
        (omega (arith, hb)) in
    let third =
      join 16 (a * 2 ^ 8 + b) (c * 2 ^ 8) (bit_or (shl a 24) (shl b 16)) (shl c 8)
        (omega (arith, top)) (omega (arith, hc)) (omega (arith, hc)) in
    join 8 (a * 2 ^ 16 + b * 2 ^ 8 + c) d (bit_or (bit_or (shl a 24) (shl b 16)) (shl c 8)) d
      (omega (arith, third)) refl hd
    ∙ omega arith

low_byte :
    (t : Bool) (r : ℕ)
    → r < 2 ^ 8
    → bit_or (shl (if t then 1 else 0) 8) r ≡ (if t then 2 ^ 8 else 0) + r
low_byte true r h = join 8 1 r (shl 1 8) r refl refl h
low_byte false r h = join 8 0 r (shl 0 8) r refl refl h

-- The size word of the accelerator holds the four sizes, each of which reads back from its byte.
pub size_config_fields :
    (batch m k n : ℕ)
    → batch < 2 ^ 8
    → m < 2 ^ 8
    → k < 2 ^ 8
    → n < 2 ^ 8
    → ((gen_size_config batch m k n / 2 ^ 24 ≡ batch)
        × (gen_size_config batch m k n / 2 ^ 16 % 2 ^ 8 ≡ m)
        × (gen_size_config batch m k n / 2 ^ 8 % 2 ^ 8 ≡ k)
        × (gen_size_config batch m k n % 2 ^ 8 ≡ n))
unfolding gen_size_config
size_config_fields batch m k n hb hm hk hn =
    let e = four_bytes batch m k n hb hm hk hn in
    (omega (arith, e), omega (arith, e), omega (arith, e), omega (arith, e))

-- The first two words of the SIMD unit hold the zero points, the shift, the largest and the least
-- value, and the rounding flag, each of which reads back from its byte: of a negative least value,
-- given as a 32-bit pattern, its low byte.
pub simd_config_fields :
    (input_zp output_zp shift max_int min_int : ℕ) (double_round : Bool)
    → input_zp < 2 ^ 8
    → output_zp < 2 ^ 8
    → shift < 2 ^ 8
    → max_int < 2 ^ 8
    → ((gen_csr0_config input_zp output_zp shift max_int / 2 ^ 24 ≡ max_int)
        × (gen_csr0_config input_zp output_zp shift max_int / 2 ^ 16 % 2 ^ 8 ≡ shift)
        × (gen_csr0_config input_zp output_zp shift max_int / 2 ^ 8 % 2 ^ 8 ≡ output_zp)
        × (gen_csr0_config input_zp output_zp shift max_int % 2 ^ 8 ≡ input_zp)
        × (gen_csr1_config min_int double_round
            ≡ (if double_round then 2 ^ 8 else 0) + min_int % 2 ^ 8))
unfolding gen_csr0_config gen_csr1_config
simd_config_fields zi zo s max_int min_int d hi ho hs hm =
    let e = four_bytes max_int s zo zi hm hs ho hi in
    (
      omega (arith, e),
      omega (arith, e),
      omega (arith, e),
      omega (arith, e),
      low_byte d (min_int % 2 ^ 8) (omega arith),
    )
