-- ===== src/Alloc/Align.antt =====
-- What `ALIGN_UP` and `ALIGN_DOWN` compute (sw/snRuntime/src/alloc.h).
use snax_rebase.Base.{ℕ, ◌+◌, ◌-◌, ◌*◌, ◌%◌, ◌^◌, ◌≤◌, ◌<◌, ◌≡◌, arith}
use snax_rebase.Base.Bits.{bit_and-clear_three}
use snax_rebase.Base.Words.{add_u32, sub_u32}
use snax_rebase.Alloc.{align_up, align_down, min_chunk_size}

pub align_down_value : (a : ℕ) → a < 2 ^ 32 → align_down a min_chunk_size ≡ a - a % 8
unfolding align_down
align_down_value a h = omega (arith, bit_and-clear_three a h)

pub align_up_value : (a : ℕ) → a + 7 < 2 ^ 32 → align_up a min_chunk_size ≡ a + 7 - (a + 7) % 8
unfolding align_up
align_up_value a h = omega (arith, bit_and-clear_three (sub_u32 (add_u32 a 8) 1) (omega arith))

-- For an address at least 8 below 2^32 `ALIGN_UP` gives the least multiple of the chunk size that
-- is not below the address: it is a multiple, not below, and not above any other multiple that is
-- not below.
pub align_up_least :
    (a k : ℕ)
    → a + 7 < 2 ^ 32
    → a ≤ 8 * k
    → (align_up a min_chunk_size % 8 ≡ 0)
      × (a ≤ align_up a min_chunk_size)
      × (align_up a min_chunk_size ≤ 8 * k)
align_up_least a k h b = (
  omega (arith, align_up_value a h),
  omega (arith, align_up_value a h),
  omega (arith, align_up_value a h),
)
