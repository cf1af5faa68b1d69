-- ===== src/Dma/Tiles.antt =====
-- The tile helpers move exactly the bytes of the tile (sw/snRuntime/src/dma.h).
use snax_rebase.Base.{
  ℕ, ◌+◌, ◌*◌, ◌%◌, ◌^◌, ◌≤◌, ◌<◌, ◌≡◌, refl, ◌∙◌, [], ◌∷◌, arith, lt→ltb, mod-eq_of_lt,
}
use snax_rebase.Base.Words.{u32}
use snax_rebase.Dma.{Tile, tile_offset, load_2d_tile, store_2d_tile, start_2d}
use snax_rebase.Dma.Engine.{Transfer, Setup, extend, started, src_byte, dst_byte}
use snax_rebase.Dma.Start.{start_2d_cases}

-- The byte offset of the element `(row, column)` of the full array.
abbrev pub element : Tile → ℕ → ℕ → ℕ
element t row column = (row * t.full_x0_size + column) * t.prec

-- The tile has elements and lies inside an array that starts at `base` and fits the address space.
pub record Fits (base : ℕ) (t : Tile) : Type 0 where
  pub nonempty : 0 < t.x0_size * t.prec
  pub columns : (t.x0_idx + 1) * t.x0_size ≤ t.full_x0_size
  pub row_small : t.full_x0_size * t.prec < 2 ^ 31
  pub rows : base + (t.x1_idx + 1) * t.x1_size * (t.full_x0_size * t.prec) ≤ 2 ^ 32
  pub some_rows : 0 < t.x1_size

le-mul_pos : (a b : ℕ) → 0 < b → a ≤ a * b
le-mul_pos a b h = grind arith

mul-le : (a b c : ℕ) → a ≤ b → a * c ≤ b * c
mul-le a b c h = grind arith

-- The sums and products of an offset, from the innermost to the whole, stay below the bound of the
-- whole array.
offset_chain :
    (base i w r h full p : ℕ)
    → 0 < w
    → i * w + w ≤ full
    → 0 < h
    → 0 < p
    → base + (r + h) * (full * p) ≤ 2 ^ 32
    → (i * w < 2 ^ 32)
      × (r < 2 ^ 32)
      × (r * full < 2 ^ 32)
      × (i * w + r * full < 2 ^ 32)
      × (base + (i * w + r * full) * p < 2 ^ 32)
offset_chain base i w r h full p hw col hh hp fits =
    let whole : (i * w + r * full) * p + p ≤ (r + h) * (full * p) = omega (
      arith,
      mul-le (i * w + r * full + 1) ((r + h) * full) p
          (omega (arith, mul-le (r + 1) (r + h) full (omega arith))),
    ) in
    let grown = le-mul_pos (i * w + r * full) p hp in
    let rows = le-mul_pos r full (omega arith) in omega (arith, whole, grown, rows)

module _ (base : ℕ) (t : Tile) (fits : Fits base t) where
  open t use {x1_idx, x0_idx, x1_size, x0_size, full_x0_size, prec}
  open fits use {nonempty, columns, row_small, rows, some_rows}

  sizes_pos : (0 < x0_size) × (0 < prec)
  sizes_pos = (grind (arith, nonempty), grind (arith, nonempty))

  chain :
      (x0_idx * x0_size < 2 ^ 32)
      × (x1_idx * x1_size < 2 ^ 32)
      × (x1_idx * x1_size * full_x0_size < 2 ^ 32)
      × (x0_idx * x0_size + x1_idx * x1_size * full_x0_size < 2 ^ 32)
      × (base + (x0_idx * x0_size + x1_idx * x1_size * full_x0_size) * prec < 2 ^ 32)
  chain =
      offset_chain base x0_idx x0_size (x1_idx * x1_size) x1_size full_x0_size prec sizes_pos.0
        (omega (arith, columns)) some_rows sizes_pos.1 (omega (arith, rows))

  -- No product or sum of the offset wraps.
  pub offset_exact : tile_offset t ≡ element t (x1_idx * x1_size) (x0_idx * x0_size)
  unfolding tile_offset
  offset_exact =
      rw
        (
          mod-eq_of_lt chain.0,
          mod-eq_of_lt chain.1,
          mod-eq_of_lt chain.2,
          mod-eq_of_lt chain.3,
          scaled,
        )
        (omega arith)
    where
      scaled :
          (x0_idx * x0_size + x1_idx * x1_size * full_x0_size) * prec % 2 ^ 32
          ≡ (x0_idx * x0_size + x1_idx * x1_size * full_x0_size) * prec
      scaled = mod-eq_of_lt (omega (arith, chain))

  element_room : base + element t (x1_idx * x1_size) (x0_idx * x0_size) < 2 ^ 32
  element_room = omega (arith, chain)

  -- The bytes of a row of the tile, and of a row of the array, fit the positive strides.
  row_bytes : (u32 (x0_size * prec) ≡ x0_size * prec) × (x0_size * prec < 2 ^ 31)
  row_bytes =
      let le = mul-le x0_size full_x0_size prec (omega (arith, columns)) in
      (mod-eq_of_lt (omega (arith, le, row_small)), omega (arith, le, row_small))

  array_row : u32 (full_x0_size * prec) ≡ full_x0_size * prec
  array_row = mod-eq_of_lt (omega (arith, row_small))

  -- Row `r` of the tile, seen from the start of the tile, ends inside the array.
  row_end :
      (r : ℕ)
      → r < x1_size
      → base
          + element t (x1_idx * x1_size) (x0_idx * x0_size)
          + r * (full_x0_size * prec)
          + x0_size * prec
        ≤ 2 ^ 32
  row_end r h =
      let column = mul-le (x0_idx * x0_size + x0_size) full_x0_size prec (omega (arith, columns)) in
      let row =
        mul-le (x1_idx * x1_size + r + 1) ((x1_idx + 1) * x1_size) (full_x0_size * prec)
          (omega arith) in
      omega (arith, column, row, rows)

-- What one transfer of a tile has to do: row by row, the tile's bytes of the array at `array` on
-- one side, and the packed bytes at `packed` on the other.
pub record MovesTile (array packed : ℕ) (t : Tile) (size reps : ℕ) (outer inner : ℕ → ℕ → ℕ)
    : Type 0 where
  pub size_lem : size ≡ t.x0_size * t.prec
  pub reps_lem : reps ≡ t.x1_size
  pub in_array :
      (r b : ℕ)
      → r < t.x1_size
      → b < t.x0_size * t.prec
      → outer r b ≡ array + element t (t.x1_idx * t.x1_size + r) (t.x0_idx * t.x0_size) + b
  pub in_tile :
      (r b : ℕ)
      → r < t.x1_size
      → b < t.x0_size * t.prec
      → inner r b ≡ packed + r * (t.x0_size * t.prec) + b

abbrev strided : ℕ → ℕ → ℕ → ℕ → ℕ → ℕ → Transfer
strided src dst size src_stride dst_stride reps = record {
  src = src;
  dst = dst;
  size = size;
  src_stride = src_stride;
  dst_stride = dst_stride;
  reps = reps;
}

abbrev pub load_transfer : ℕ → ℕ → Tile → Transfer
load_transfer dst src t =
    strided (src + element t (t.x1_idx * t.x1_size) (t.x0_idx * t.x0_size)) dst (t.x0_size * t.prec)
      (t.full_x0_size * t.prec) (t.x0_size * t.prec) t.x1_size

abbrev pub store_transfer : ℕ → ℕ → Tile → Transfer
store_transfer dst src t =
    strided src (dst + element t (t.x1_idx * t.x1_size) (t.x0_idx * t.x0_size)) (t.x0_size * t.prec)
      (t.x0_size * t.prec) (t.full_x0_size * t.prec) t.x1_size

-- A byte whose address does not leave the address space, along a positive stride.
affine_byte :
    (start stride r b : ℕ)
    → stride < 2 ^ 31
    → start + r * stride + b < 2 ^ 64
    → (start + r * extend stride + b) % 2 ^ 64 ≡ start + r * stride + b
affine_byte start stride r b small room = rw (lt→ltb stride (2 ^ 31) small) (mod-eq_of_lt room)

packed_end : (r n w : ℕ) → r < n → r * w + w ≤ n * w
packed_end r n w h = grind arith

module _ (base other : ℕ) (t : Tile) (fits : Fits base t) where
  open t use {x1_idx, x0_idx, x1_size, x0_size, full_x0_size, prec}

  array_byte :
      (r b : ℕ)
      → r < x1_size
      → b < x0_size * prec
      → (base
            + element t (x1_idx * x1_size) (x0_idx * x0_size)
            + r * extend (full_x0_size * prec)
            + b)
          % 2 ^ 64
        ≡ base + element t (x1_idx * x1_size + r) (x0_idx * x0_size) + b
  array_byte r b hr hb =
      affine_byte (base + element t (x1_idx * x1_size) (x0_idx * x0_size)) (full_x0_size * prec) r b
        fits.row_small (omega (arith, row_end base t fits r hr))
      ∙ omega arith

  packed_byte :
      (r b : ℕ)
      → other + x1_size * (x0_size * prec) ≤ 2 ^ 32
      → r < x1_size
      → b < x0_size * prec
      → (other + r * extend (x0_size * prec) + b) % 2 ^ 64 ≡ other + r * (x0_size * prec) + b
  packed_byte r b room hr hb =
      affine_byte other (x0_size * prec) r b (row_bytes base t fits).1
        (omega (arith, packed_end r x1_size (x0_size * prec) hr))

  load_moves :
      (f : Setup) (tid : ℕ)
      → other + x1_size * (x0_size * prec) ≤ 2 ^ 32
      → let m = load_transfer other base t in
        (started f (load_2d_tile tid other base t).0 ≡ m ∷ [])
        × MovesTile base other t m.size m.reps (src_byte m) (dst_byte m)
  unfolding load_2d_tile start_2d
  load_moves f tid room = (
    rw
        (
          (row_bytes base t fits).0,
          array_row base t fits,
          offset_exact base t fits,
          mod-eq_of_lt (element_room base t fits),
        )
        ((start_2d_cases f tid _ _ _ _ _ _).0 fits.nonempty).0,
    record {
      size_lem = refl;
      reps_lem = refl;
      in_array = array_byte;
      in_tile = λ r b. packed_byte r b room;
    },
  )

  store_moves :
      (f : Setup) (tid : ℕ)
      → other + x1_size * (x0_size * prec) ≤ 2 ^ 32
      → let m = store_transfer base other t in
        (started f (store_2d_tile tid base other t).0 ≡ m ∷ [])
        × MovesTile base other t m.size m.reps (dst_byte m) (src_byte m)
  unfolding store_2d_tile start_2d
  store_moves f tid room = (
    rw
        (
          (row_bytes base t fits).0,
          array_row base t fits,
          offset_exact base t fits,
          mod-eq_of_lt (element_room base t fits),
        )
        ((start_2d_cases f tid _ _ _ _ _ _).0 fits.nonempty).0,
    record {
      size_lem = refl;
      reps_lem = refl;
      in_array = array_byte;
      in_tile = λ r b. packed_byte r b room;
    },
  )

  -- `snrt_dma_load_2d_tile` starts one transfer. Byte `b` of its row `r`, within the tile, is read
  -- from the place of that byte of the tile in the array, and written to where the rows of the tile
  -- lie packed one after the other. No address wraps, if the array and the packed tile end inside
  -- the address space.
  pub load_2d_tile_moves :
      (f : Setup) (tid r b : ℕ)
      → other + x1_size * (x0_size * prec) ≤ 2 ^ 32
      → r < x1_size
      → b < x0_size * prec
      → let m = load_transfer other base t in
        (started f (load_2d_tile tid other base t).0 ≡ m ∷ [])
        × (src_byte m r b ≡ base + element t (x1_idx * x1_size + r) (x0_idx * x0_size) + b)
        × (dst_byte m r b ≡ other + r * (x0_size * prec) + b)
  load_2d_tile_moves f tid r b room hr hb =
      let (begun, moves) = load_moves f tid room in
      (begun, moves.in_array r b hr hb, moves.in_tile r b hr hb)

  -- `snrt_dma_store_2d_tile` starts one transfer that moves the same bytes the other way: from the
  -- packed rows to the tile's place in the array.
  pub store_2d_tile_moves :
      (f : Setup) (tid r b : ℕ)
      → other + x1_size * (x0_size * prec) ≤ 2 ^ 32
      → r < x1_size
      → b < x0_size * prec
      → let m = store_transfer base other t in
        (started f (store_2d_tile tid base other t).0 ≡ m ∷ [])
        × (src_byte m r b ≡ other + r * (x0_size * prec) + b)
        × (dst_byte m r b ≡ base + element t (x1_idx * x1_size + r) (x0_idx * x0_size) + b)
  store_2d_tile_moves f tid r b room hr hb =
      let (begun, moves) = store_moves f tid room in
      (begun, moves.in_tile r b hr hb, moves.in_array r b hr hb)
