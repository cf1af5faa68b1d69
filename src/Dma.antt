-- ===== src/Dma.antt =====
-- sw/snRuntime/src/dma.h: the instructions that start transfers, the waits, the tile helpers.
pub mod Engine
pub mod Rows
pub mod Start
pub mod Tiles
pub mod Fill
pub mod Wait
use snax_rebase.Base.{
  ℕ, zero, suc, ◌+◌, ◌-◌, ◌*◌, ◌/◌, ◌%◌, ◌^◌, Bool, bit_or, List, [], ◌∷◌, ◌++◌, Option, none, some,
  ltb, leb, ◌&&◌, ◌==◌, if◌then◌else◌,
}
use snax_rebase.Base.Memory.{Memory, update}
use snax_rebase.Base.Words.{u32, add_u32, sub_u32, mul_u32}

-- The argument registers that the inline assembly pins its operands to.
pub record Regs : Type 0 where
  pub a0 : ℕ
  pub a1 : ℕ
  pub a2 : ℕ
  pub a3 : ℕ
  pub a4 : ℕ
  pub a5 : ℕ
  pub a6 : ℕ
  pub a7 : ℕ

-- What a call issues: instruction words, and the registers that they read.
pub record Issue : Type 0 where
  pub regs : Regs
  pub words : List ℕ

-- `.word (funct7 << 25) | (rs2 << 20) | (rs1 << 15) | (0b000 << 12) | (rd << 7) | 0b0101011`
abbrev pub dma_word : ℕ → ℕ → ℕ → ℕ → ℕ
dma_word funct7 rs2 rs1 rd =
    bit_or (funct7 * 2 ^ 25)
      (bit_or (rs2 * 2 ^ 20) (bit_or (rs1 * 2 ^ 15) (bit_or (rd * 2 ^ 7) 0b0101011)))

-- `-1` as a transfer identifier
abbrev pub no_txid : ℕ
no_txid = 2 ^ 32 - 1

-- `tid` is the identifier that the engine puts into `a0`. Nothing is issued for an empty transfer.
unfoldable pub start_1d_wideptr : ℕ → ℕ → ℕ → ℕ → Option Issue × ℕ
start_1d_wideptr tid dst src size =
    if ltb 0 size
    then (
      some (record {
        regs = record {
          a0 = u32 dst;
          a1 = dst / 2 ^ 32;
          a2 = u32 src;
          a3 = src / 2 ^ 32;
          a4 = size;
          a5 = 0;
          a6 = 0;
          a7 = 0;
        };
        words = dma_word 0 13 12 0 ∷ dma_word 1 11 10 0 ∷ dma_word 2 0 14 10 ∷ [];
      }),
      tid,
    )
    else (none, no_txid)

unfoldable pub start_1d : ℕ → ℕ → ℕ → ℕ → Option Issue × ℕ
unfolding start_1d_wideptr
start_1d tid dst src size = start_1d_wideptr tid dst src size

unfoldable pub start_2d_wideptr : ℕ → ℕ → ℕ → ℕ → ℕ → ℕ → ℕ → Option Issue × ℕ
start_2d_wideptr tid dst src size dst_stride src_stride repeat =
    if ltb 0 size
    then (
      some (record {
        regs = record {
          a0 = u32 dst;
          a1 = dst / 2 ^ 32;
          a2 = u32 src;
          a3 = src / 2 ^ 32;
          a4 = size;
          a5 = dst_stride;
          a6 = src_stride;
          a7 = repeat;
        };
        words =
            dma_word 0 13 12 0
            ∷ dma_word 1 11 10 0
            ∷ dma_word 6 15 16 0
            ∷ dma_word 7 0 17 0
            ∷ dma_word 2 2 14 10
            ∷ [];
      }),
      tid,
    )
    else (none, no_txid)

unfoldable pub start_2d : ℕ → ℕ → ℕ → ℕ → ℕ → ℕ → ℕ → Option Issue × ℕ
unfolding start_2d_wideptr
start_2d tid dst src size dst_stride src_stride repeat =
    start_2d_wideptr tid dst src size dst_stride src_stride repeat

-- Tiles. `tile_nbytes` and the offsets are `size_t` products and sums.
unfoldable pub load_1d_tile : ℕ → ℕ → ℕ → ℕ → ℕ → ℕ → Option Issue × ℕ
unfolding start_1d
load_1d_tile tid dst src tile_idx tile_size prec =
    let tile_nbytes = mul_u32 tile_size prec in
    start_1d tid dst (add_u32 src (mul_u32 tile_idx tile_nbytes)) tile_nbytes

unfoldable pub store_1d_tile : ℕ → ℕ → ℕ → ℕ → ℕ → ℕ → Option Issue × ℕ
unfolding start_1d
store_1d_tile tid dst src tile_idx tile_size prec =
    let tile_nbytes = mul_u32 tile_size prec in
    start_1d tid (add_u32 dst (mul_u32 tile_idx tile_nbytes)) src tile_nbytes

-- The shape of a two-dimensional tile and its place in the full array.
pub record Tile : Type 0 where
  pub x1_idx : ℕ
  pub x0_idx : ℕ
  pub x1_size : ℕ
  pub x0_size : ℕ
  pub full_x0_size : ℕ
  pub prec : ℕ

-- `src_offset` of the load and `dst_offset` of the store
unfoldable pub tile_offset : Tile → ℕ
tile_offset t =
    let elements =
      add_u32 (mul_u32 t.x0_idx t.x0_size) (mul_u32 (mul_u32 t.x1_idx t.x1_size) t.full_x0_size) in
    mul_u32 elements t.prec

unfoldable pub load_2d_tile : ℕ → ℕ → ℕ → Tile → Option Issue × ℕ
unfolding start_2d tile_offset
load_2d_tile tid dst src t =
    start_2d tid dst (add_u32 src (tile_offset t)) (mul_u32 t.x0_size t.prec)
      (mul_u32 t.x0_size t.prec) (mul_u32 t.full_x0_size t.prec) t.x1_size

unfoldable pub store_2d_tile : ℕ → ℕ → ℕ → Tile → Option Issue × ℕ
unfolding start_2d tile_offset
store_2d_tile tid dst src t =
    start_2d tid (add_u32 dst (tile_offset t)) src (mul_u32 t.x0_size t.prec)
      (mul_u32 t.full_x0_size t.prec) (mul_u32 t.x0_size t.prec) t.x1_size

-- `while (nbytes--) *p++ = value;`, by the value of `nbytes`
unfoldable pub fill_bytes : ℕ → ℕ → ℕ → Memory → Memory
fill_bytes zero p value m = m
fill_bytes (suc n) p value m = fill_bytes n (add_u32 p 1) value (update m p value)

-- The memory after the first 64 bytes are written, and the transfer that copies them on; the wait
-- for the engine follows.
unfoldable pub dma_memset : ℕ → ℕ → ℕ → ℕ → Memory → Memory × Option Issue
unfolding fill_bytes start_2d
dma_memset tid ptr value len m =
    (fill_bytes 64 ptr value m, (start_2d tid ptr ptr 64 64 0 (len / 64)).0)

-- `sub t0, t0, tid; blez t0, 1b`: the loop is left when the signed difference is positive.
unfoldable pub wait_done : ℕ → ℕ → Bool
wait_done tid completed = let d = sub_u32 completed tid in ltb 0 d && ltb d (2 ^ 31)

-- The polls of `snrt_dma_wait` over the status words that the engine returns one after another:
-- the words left over when the loop ends, or `none` if it has not ended.
unfoldable pub wait : ℕ → List ℕ → Option (List ℕ)
unfolding wait_done
wait tid [] = none
wait tid (s ∷ ss) = let rest = wait tid ss in if wait_done tid s then some ss else rest

-- The same for `snrt_dma_wait_all`, which polls the busy flag.
unfoldable pub wait_all : List ℕ → Option (List ℕ)
wait_all [] = none
wait_all (s ∷ ss) = let rest = wait_all ss in if s == 0 then some ss else rest
