-- ===== src/Dma/Rows.antt =====
-- Where a transfer of rows writes a byte, and where it leaves one (docs/rm/custom_instructions.md).
use snax_rebase.Base.{
  ℕ, zero, suc, ◌+◌, ◌-◌, ◌<◌, ◌≤◌, ◌≡◌, ◌≢◌, dec_le, dec_lt, ℕ_discrete, refl, sym, ◌∙◌, subst,
  arith, ltb, leb, ◌&&◌, if◌then◌else◌,
}
use snax_rebase.Base.Memory.{Memory}
use snax_rebase.Dma.Engine.{Transfer, src_byte, dst_byte, copy_row, copy_rows}

-- Byte `x` lies in row `r` of the destination.
abbrev pub InRow : Transfer → ℕ → ℕ → Type 0
InRow t r x = (dst_byte t r 0 ≤ x) × (x < dst_byte t r 0 + t.size)

pub inside :
    (from size x v w : ℕ)
    → from ≤ x
    → x < from + size
    → (if leb from x && ltb x (from + size) then v else w) ≡ v
inside from size x v w low high = ground arith

pub outside :
    (from size x v w : ℕ)
    → ¬ ((from ≤ x) × (x < from + size))
    → (if leb from x && ltb x (from + size) then v else w) ≡ w
outside from size x v w out = elim (dec_le from x) [
  | yes low ↦ elim (dec_lt x (from + size)) [
    | yes high ↦ absurd (out (low, high))
    | no high ↦ ground arith
  ]
  | no low ↦ ground arith
]

copy_row_off : (t : Transfer) (r : ℕ) (m : Memory) (x : ℕ) → ¬ InRow t r x → copy_row t r m x ≡ m x
copy_row_off t r m x out =
    outside (dst_byte t r 0) t.size x (m (src_byte t r 0 + (x - dst_byte t r 0))) (m x) out

copy_row_at :
    (t : Transfer) (r : ℕ) (m : Memory) (x : ℕ)
    → InRow t r x
    → copy_row t r m x ≡ m (src_byte t r 0 + (x - dst_byte t r 0))
copy_row_at t r m x here =
    inside (dst_byte t r 0) t.size x (m (src_byte t r 0 + (x - dst_byte t r 0))) (m x) here.0 here.1

pub copy_rows_off :
    (n r : ℕ) (t : Transfer) (m : Memory) (x : ℕ)
    → ((q : ℕ) → r ≤ q → q < r + n → ¬ InRow t q x)
    → copy_rows n r t m x ≡ m x
unfolding copy_rows
copy_rows_off zero r t m x out = refl
copy_rows_off (suc n) r t m x out =
    copy_rows_off n (r + 1) t (copy_row t r m) x (λ q low high. out q (omega arith) (omega arith))
    ∙ copy_row_off t r m x (out r (omega arith) (omega arith))

-- A byte in row `q` of the destination and in no other, which is copied from a place that no row
-- overwrites
pub copy_rows_at :
    (n r q x : ℕ) (t : Transfer) (m : Memory)
    → r ≤ q
    → q < r + n
    → InRow t q x
    → ((q' : ℕ) → q' < r + n → q' ≢ q → ¬ InRow t q' x)
    → ((q' : ℕ) → q' < r + n → ¬ InRow t q' (src_byte t q 0 + (x - dst_byte t q 0)))
    → copy_rows n r t m x ≡ m (src_byte t q 0 + (x - dst_byte t q 0))
unfolding copy_rows
copy_rows_at zero r q x t m low high here off source = absurd (omega arith)
copy_rows_at (suc n) r q x t m low high here off source = elim (ℕ_discrete r q) [
  | yes same ↦
      copy_rows_off n (r + 1) t (copy_row t r m) x (λ q' lo hi. off q' (omega arith) (omega arith))
      ∙ subst (λ p. copy_row t p m x ≡ m (src_byte t q 0 + (x - dst_byte t q 0))) (sym same)
          (copy_row_at t q m x here)
  | no other ↦
      copy_rows_at n (r + 1) q x t (copy_row t r m) (omega arith) (omega arith) here
        (λ q' hi ne. off q' (omega arith) ne) (λ q' hi. source q' (omega arith))
      ∙ copy_row_off t r m _ (source r (omega arith))
]
