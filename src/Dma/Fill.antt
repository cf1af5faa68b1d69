-- ===== src/Dma/Fill.antt =====
-- What `snrt_dma_memset` leaves in memory (sw/snRuntime/src/dma.h).
use snax_rebase.Base.{
  ℕ, zero, suc, ◌+◌, ◌-◌, ◌*◌, ◌/◌, ◌^◌, ◌≤◌, ◌<◌, ◌≡◌, [], ◌∷◌, ltb, leb, ◌&&◌, if◌then◌else◌,
  arith, ◌∙◌,
}
use snax_rebase.Base.Memory.{Memory, update}
use snax_rebase.Base.Words.{add_u32}
use snax_rebase.Dma.{fill_bytes, dma_memset}
use snax_rebase.Dma.Start.{start_2d_cases}
use snax_rebase.Dma.Engine.{Transfer, Setup, started, copy_rows, copy_row}

fill_bytes_lem :
    (n p value : ℕ) (m : Memory) (x : ℕ)
    → p + n < 2 ^ 32
    → fill_bytes n p value m x ≡ (if leb p x && ltb x (p + n) then value else m x)
unfolding fill_bytes
fill_bytes_lem zero p value m x h = ground arith
fill_bytes_lem (suc n) p value m x h =
    ground (arith, fill_bytes_lem n (add_u32 p 1) value (update m p value) x)

-- The transfer of `snrt_dma_memset`: it reads the same 64 bytes for every row.
abbrev pub fan_out : ℕ → ℕ → Transfer
fan_out ptr rows = record {
  src = ptr;
  dst = ptr;
  size = 64;
  src_stride = 0;
  dst_stride = 64;
  reps = rows;
}

abbrev Filled : ℕ → ℕ → Memory → Type 0
Filled ptr value m = (y : ℕ) → ptr ≤ y → y < ptr + 64 → m y ≡ value

copy_row_fill :
    (r k ptr value : ℕ) (m : Memory) (y : ℕ)
    → ptr + 64 * (r + 1) < 2 ^ 32
    → Filled ptr value m
    → copy_row (fan_out ptr k) r m y
      ≡ (if leb (ptr + 64 * r) y && ltb y (ptr + 64 * (r + 1)) then value else m y)
copy_row_fill r k ptr value m y h own = ground (arith, own (ptr + (y - (ptr + 64 * r))))

copy_row-Filled :
    (r k ptr value : ℕ) (m : Memory)
    → ptr + 64 * (r + 1) < 2 ^ 32
    → Filled ptr value m
    → Filled ptr value (copy_row (fan_out ptr k) r m)
copy_row-Filled r k ptr value m h own y lo hi =
    copy_row_fill r k ptr value m y h own ∙ ground (arith, own y)

-- The rows from `r` on, `n` of them, become copies of the 64 bytes at `ptr`.
copy_rows_fill :
    (n r k ptr value : ℕ) (m : Memory) (x : ℕ)
    → ptr + 64 * (r + n) < 2 ^ 32
    → Filled ptr value m
    → copy_rows n r (fan_out ptr k) m x
      ≡ (if leb (ptr + 64 * r) x && ltb x (ptr + 64 * (r + n)) then value else m x)
unfolding copy_rows
copy_rows_fill zero r k ptr value m x h own = ground arith
copy_rows_fill (suc n) r k ptr value m x h own =
    copy_rows_fill n (r + 1) k ptr value (copy_row (fan_out ptr k) r m) x (omega arith)
      (copy_row-Filled r k ptr value m (omega arith) own)
    ∙ ground (arith, copy_row_fill r k ptr value m x (omega arith) own)

-- An engine does what it is documented to do: it copies the rows of a transfer in order.
abbrev pub CopiesRows : (Transfer → Memory → Memory) → Type 0
CopiesRows run = (t : Transfer) (m : Memory) (x : ℕ) → run t m x ≡ copy_rows t.reps 0 t m x

-- With an engine that copies the rows in order, `snrt_dma_memset` of at least 64 bytes starts one
-- transfer, after which the first `64 * (len / 64)` bytes hold the value and no other byte has
-- changed: the whole region if its length is a multiple of 64. The region must not reach the end
-- of the address space.
pub dma_memset_fills :
    (run : Transfer → Memory → Memory) (f : Setup) (tid ptr value len : ℕ) (m : Memory) (x : ℕ)
    → CopiesRows run
    → 64 ≤ len
    → ptr + len < 2 ^ 32
    → let call = dma_memset tid ptr value len m in
      (started f call.1 ≡ fan_out ptr (len / 64) ∷ [])
      × (run (fan_out ptr (len / 64)) call.0 x
          ≡ (if leb ptr x && ltb x (ptr + 64 * (len / 64)) then value else m x))
unfolding dma_memset
dma_memset_fills run f tid ptr value len m x engine big room = (
  ((start_2d_cases f tid ptr ptr 64 64 0 (len / 64)).0 (omega arith)).0,
  engine _ _ x
      ∙ copy_rows_fill (len / 64) 0 (len / 64) ptr value (fill_bytes 64 ptr value m) x (omega arith)
          (λ y lo hi. fill_bytes_lem 64 ptr value m y (omega arith) ∙ ground arith)
      ∙ ground (arith, fill_bytes_lem 64 ptr value m x),
)
