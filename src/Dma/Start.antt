-- ===== src/Dma/Start.antt =====
-- The words that `snrt_dma_start_1d` and `snrt_dma_start_2d` issue start the transfer asked for.
use snax_rebase.Base.{
  suc, zero, ltb, if◌then◌else◌, ℕ, ◌+◌, ◌*◌, ◌/◌, ◌^◌, ◌<◌, ◌≡◌, refl, [], ◌∷◌, lt→ltb, arith,
}
use snax_rebase.Base.Words.{u32}
use snax_rebase.Dma.{start_1d_wideptr, start_2d_wideptr, no_txid}
use snax_rebase.Dma.Engine.{Transfer, Setup, started}

join_halves : (a : ℕ) → a / 2 ^ 32 * 2 ^ 32 + u32 a ≡ a
join_halves a = omega arith

abbrev pub flat : ℕ → ℕ → ℕ → Transfer
flat dst src size = record {
  src = src;
  dst = dst;
  size = size;
  src_stride = 0;
  dst_stride = 0;
  reps = 1;
}

abbrev pub rows_of : ℕ → ℕ → ℕ → ℕ → ℕ → ℕ → Transfer
rows_of dst src size dst_stride src_stride repeat = record {
  src = src;
  dst = dst;
  size = size;
  src_stride = src_stride;
  dst_stride = dst_stride;
  reps = repeat;
}

pub start_1d_cases :
    (f : Setup) (tid dst src size : ℕ)
    → (0 < size
        → (started f (start_1d_wideptr tid dst src size).0 ≡ flat dst src size ∷ [])
          × ((start_1d_wideptr tid dst src size).1 ≡ tid))
      × (size ≡ 0
          → (started f (start_1d_wideptr tid dst src size).0 ≡ [])
            × ((start_1d_wideptr tid dst src size).1 ≡ no_txid))
unfolding start_1d_wideptr
start_1d_cases f tid dst src size = (
  λ pos. rw (lt→ltb 0 size pos) (rw (join_halves src, join_halves dst) refl, refl),
  λ z. rw z (refl, refl),
)

pub start_2d_cases :
    (f : Setup) (tid dst src size dst_stride src_stride repeat : ℕ)
    → let call = start_2d_wideptr tid dst src size dst_stride src_stride repeat in
      (0 < size
        → (started f call.0 ≡ rows_of dst src size dst_stride src_stride repeat ∷ [])
          × (call.1 ≡ tid))
      × (size ≡ 0 → (started f call.0 ≡ []) × (call.1 ≡ no_txid))
unfolding start_2d_wideptr
start_2d_cases f tid dst src size dst_stride src_stride repeat = (
  λ pos. rw (lt→ltb 0 size pos) (rw (join_halves src, join_halves dst) refl, refl),
  λ z. rw z (refl, refl),
)

-- Whatever parameters earlier instructions left, `snrt_dma_start_1d_wideptr` starts exactly one
-- one-dimensional transfer with its pointers and size and returns the engine's identifier; for
-- size 0 it starts none and returns -1.
pub start_1d_starts :
    (f : Setup) (tid dst src size : ℕ)
    → (started f (start_1d_wideptr tid dst src size).0
        ≡ (if ltb 0 size then flat dst src size ∷ [] else []))
      × ((start_1d_wideptr tid dst src size).1 ≡ (if ltb 0 size then tid else no_txid))
start_1d_starts f tid dst src zero = (start_1d_cases f tid dst src 0).1 refl
start_1d_starts f tid dst src (suc size) =
    rw (lt→ltb 0 (suc size) (omega arith))
      ((start_1d_cases f tid dst src (suc size)).0 (omega arith))

-- Whatever parameters earlier instructions left, `snrt_dma_start_2d_wideptr` starts exactly one
-- transfer with its pointers, size, strides and number of rows and returns the engine's identifier;
-- for size 0 it starts none and returns -1.
pub start_2d_starts :
    (f : Setup) (tid dst src size dst_stride src_stride repeat : ℕ)
    → let call = start_2d_wideptr tid dst src size dst_stride src_stride repeat in
      (started f call.0
        ≡ (if ltb 0 size then rows_of dst src size dst_stride src_stride repeat ∷ [] else []))
      × (call.1 ≡ (if ltb 0 size then tid else no_txid))
start_2d_starts f tid dst src zero ds ss r = (start_2d_cases f tid dst src 0 ds ss r).1 refl
start_2d_starts f tid dst src (suc size) ds ss r =
    rw (lt→ltb 0 (suc size) (omega arith))
      ((start_2d_cases f tid dst src (suc size) ds ss r).0 (omega arith))
