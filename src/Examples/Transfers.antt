-- ===== src/Examples/Transfers.antt =====
-- Transfers at concrete values (sw/snRuntime/src/dma.h).
use snax_rebase.Base.{◌+◌, ◌*◌, ◌/◌, ◌≡◌, refl, [], ◌∷◌, arith, leb, ltb, ◌&&◌, if◌then◌else◌}
use snax_rebase.Base.Memory.{Memory}
use snax_rebase.Dma.{load_2d_tile, Tile, dma_memset}
use snax_rebase.Dma.Engine.{Setup, Transfer, started, src_byte, dst_byte, copy_rows}
use snax_rebase.Dma.Tiles.{Fits, element, load_transfer, load_2d_tile_moves}
use snax_rebase.Dma.Fill.{CopiesRows, fan_out, dma_memset_fills}
use snax_rebase.Dma.Wait.{AllPending}

-- Parameters of an earlier transfer
abbrev used_before : Setup
used_before = record { src = 1; dst = 2; src_stride = 3; dst_stride = 4; reps = 5 }

-- The tile in row 1 and column 2 of an array with 16 columns of 8-byte elements
abbrev small_tile : Tile
small_tile = record {
  x1_idx = 1;
  x0_idx = 2;
  x1_size = 3;
  x0_size = 4;
  full_x0_size = 16;
  prec = 8;
}

abbrev small_tile_fits : Fits 0x1000 small_tile
small_tile_fits = record {
  nonempty = omega arith;
  columns = omega arith;
  row_small = omega arith;
  rows = omega arith;
  some_rows = omega arith;
}

load_2d_tile_moves_example :
    let m = load_transfer 0x8000 0x1000 small_tile in
    (started used_before (load_2d_tile 7 0x8000 0x1000 small_tile).0 ≡ m ∷ [])
    × (src_byte m 2 5 ≡ 0x1000 + element small_tile (1 * 3 + 2) (2 * 4) + 5)
    × (dst_byte m 2 5 ≡ 0x8000 + 2 * (4 * 8) + 5)
load_2d_tile_moves_example =
    load_2d_tile_moves 0x1000 0x8000 small_tile small_tile_fits used_before 7 2 5 (omega arith)
      (omega arith) (omega arith)

-- An engine that copies the rows one after the other
abbrev row_engine : Transfer → Memory → Memory
row_engine t m = copy_rows t.reps 0 t m

abbrev row_engine_copies : CopiesRows row_engine
row_engine_copies t m x = refl

abbrev ones : Memory
ones _ = 1

dma_memset_fills_example :
    let call = dma_memset 7 0x1000 0 128 ones in
    (started used_before call.1 ≡ fan_out 0x1000 (128 / 64) ∷ [])
    × (row_engine (fan_out 0x1000 (128 / 64)) call.0 0x1041
        ≡ (if leb 0x1000 0x1041 && ltb 0x1041 (0x1000 + 64 * (128 / 64)) then 0 else ones 0x1041))
dma_memset_fills_example =
    dma_memset_fills row_engine used_before 7 0x1000 0 128 ones 0x1041 row_engine_copies
      (omega arith) (omega arith)

abbrev both_pending : AllPending 5 (4 ∷ 5 ∷ [])
both_pending = ((1, omega arith, refl), ((0, omega arith, refl), tt))
