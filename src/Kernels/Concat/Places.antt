-- ===== src/Kernels/Concat/Places.antt =====
-- What `concat_layer` leaves in memory, and what it does when there are too many inputs
-- (sw/dnn/concat/src/concat.h).
use snax_rebase.Base.{
  ℕ, ◌+◌, ◌-◌, ◌*◌, ◌%◌, ◌^◌, ◌<◌, ◌≤◌, ◌≡◌, ◌⊎◌, inl, inr, refl, sym, ap, ◌∙◌, subst, [], ◌∷◌,
  lt→ltb, le→ltb, dec_lt, arith,
}
use snax_rebase.Base.Grid.{loop_off, loop_once, row_unique}
use snax_rebase.Base.Loops.{loop}
use snax_rebase.Base.Memory.{Memory}
use snax_rebase.Base.Words.{add_u32, mul_u32}
use snax_rebase.Dma.{start_2d}
use snax_rebase.Dma.Engine.{
  Transfer, Setup, started, extend, src_byte, dst_byte, copy_rows, run_all,
}
use snax_rebase.Dma.Fill.{CopiesRows}
use snax_rebase.Dma.Rows.{InRow, copy_rows_off, copy_rows_at}
use snax_rebase.Dma.Start.{rows_of, start_2d_cases}
use snax_rebase.Kernels.Concat.{
  ConcatLayer, row_size, concatenated_row_size, concat_layer, concat_all,
}
use native.Mathlib.Nat.{mul_comm}

-- The concatenated rows fit the address space and are below `2 ^ 31` bytes together, the inputs fit it
-- too, and no input overlaps them.
pub record Room (l : ConcatLayer) : Type 0 where
  pub small : l.height * (l.num_inputs * (l.width * 8)) < 2 ^ 31
  pub top : l.output + l.height * (l.num_inputs * (l.width * 8)) < 2 ^ 32
  pub inputs_top : (i : ℕ) → i < l.num_inputs → l.inputs i + l.height * (l.width * 8) < 2 ^ 32
  pub apart :
      (i : ℕ)
      → i < l.num_inputs
      → (l.inputs i + l.height * (l.width * 8) ≤ l.output)
        ⊎ (l.output + l.height * (l.num_inputs * (l.width * 8)) ≤ l.inputs i)

below : (q n i : ℕ) (h : ℕ) → q < h → i < n → q * n + i < h * n
below q n i h hq hi = grind arith

grow : (a b : ℕ) → 0 < a → b ≤ a * b
grow a b h = grind arith

row_start : (out q n i w : ℕ) → out + i * w + q * (n * w) ≡ out + (q * n + i) * w
row_start out q n i w = grind arith

next_row : (a b w : ℕ) → a < b → a * w + w ≤ b * w
next_row a b w h = grind arith

extend_small : (w : ℕ) → w < 2 ^ 31 → extend w ≡ w
extend_small w h = ground arith

plain_row :
    (base q s : ℕ)
    → s < 2 ^ 31
    → base + q * s < 2 ^ 64
    → (base + q * extend s + 0) % 2 ^ 64 ≡ base + q * s
plain_row base q s small room = rw (extend_small s small) (omega arith)

regroup : (h n w : ℕ) → h * n * w ≡ h * (n * w)
regroup h n w = grind arith

module _ (l : ConcatLayer) (room : Room l) where
  abbrev row : ℕ
  row = l.width * 8

  -- The transfer of cluster `i`
  abbrev transfer : ℕ → Transfer
  transfer i = rows_of (l.output + i * row) (l.inputs i) row (l.num_inputs * row) row l.height

  module _ (i q : ℕ) (hi : i < l.num_inputs) (hq : q < l.height) where
    strides : (row ≤ l.num_inputs * row) × (l.num_inputs * row < 2 ^ 31)
    strides = (
      grow l.num_inputs row (omega arith),
      omega (arith, grow l.height (l.num_inputs * row) (omega arith), room.small),
    )

    within : (q * l.num_inputs + i) * row + row ≤ l.height * (l.num_inputs * row)
    within = omega (
      arith,
      regroup l.height l.num_inputs row,
      next_row (q * l.num_inputs + i) (l.height * l.num_inputs) row
          (below q l.num_inputs i l.height hq hi),
    )

    dst_at : dst_byte (transfer i) q 0 ≡ l.output + (q * l.num_inputs + i) * row
    dst_at =
        plain_row (l.output + i * row) q (l.num_inputs * row) strides.1
          (omega (arith, row_start l.output q l.num_inputs i row, within, room.top))
        ∙ row_start l.output q l.num_inputs i row

    src_at : src_byte (transfer i) q 0 ≡ l.inputs i + q * row
    src_at =
        plain_row (l.inputs i) q row (omega (arith, strides))
          (omega (arith, next_row q l.height row hq, room.inputs_top i hi))

    -- Byte `b` of row `r` of input `i'` in the concatenation
    InRow-place :
        (r i' b : ℕ)
        → i' < l.num_inputs
        → b < row
        → InRow (transfer i) q (l.output + ((r * l.num_inputs + i') * row + b))
        → (q ≡ r) × (i ≡ i')
    InRow-place r i' b hi' hb (low, high) =
        let c : ℕ = (r * l.num_inputs + i') * row + b - (q * l.num_inputs + i) * row in
        let same =
          row_unique (r * l.num_inputs + i') b (q * l.num_inputs + i) c row hb
            (omega (arith, dst_at, low, high)) (omega (arith, dst_at, low, high)) in
        let both = row_unique q i r i' l.num_inputs hi hi' (omega (arith, same.0)) in both

    -- No row is written over an input.
    InRow-input :
        (i' x : ℕ)
        → i' < l.num_inputs
        → l.inputs i' ≤ x
        → x < l.inputs i' + l.height * row
        → ¬ InRow (transfer i) q x
    InRow-input i' x hi' low high (from, to) = elim (room.apart i' hi') [
      | inl before ↦ omega (arith, dst_at, before, from)
      | inr after ↦ omega (arith, dst_at, after, to, within)
    ]

  place_in :
      (i q b : ℕ)
      → i < l.num_inputs
      → q < l.height
      → b < row
      → InRow (transfer i) q (l.output + ((q * l.num_inputs + i) * row + b))
  place_in i q b hi hq hb = (omega (arith, dst_at i q hi hq), omega (arith, dst_at i q hi hq))

  module _ (clusters tid : ℕ) (f : Setup) (enough : l.num_inputs ≤ clusters) where
    issued :
        (i : ℕ)
        → i < l.num_inputs
        → 0 < l.height
        → 0 < row
        → started f (concat_layer l clusters i tid).1 ≡ transfer i ∷ []
    unfolding concat_layer row_size concatenated_row_size start_2d
    issued i hi some_rows some_bytes =
        let (wide, narrow) = strides i 0 hi some_rows in
        let inside = within i 0 hi some_rows in
        let one : mul_u32 l.width 8 ≡ row = omega (arith, wide, narrow) in
        let all : mul_u32 row l.num_inputs ≡ l.num_inputs * row =
          omega (arith, narrow, mul_comm row l.num_inputs) in
        let at : add_u32 l.output (mul_u32 i row) ≡ l.output + i * row =
          omega (arith, inside, room.top) in
        simp (le→ltb clusters l.num_inputs enough, lt→ltb i l.num_inputs hi, one, all, at)
          (((start_2d_cases f tid (l.output + i * row) (l.inputs i) row (l.num_inputs * row) row
              l.height).0
            some_bytes).0)

    idle : (i : ℕ) → l.num_inputs ≤ i → started f (concat_layer l clusters i tid).1 ≡ []
    unfolding concat_layer
    idle i hi = simp (le→ltb clusters l.num_inputs enough, le→ltb i l.num_inputs hi) refl

    module _ (run : Transfer → Memory → Memory) (engine : CopiesRows run) (some_rows : 0 < l.height)
        (some_bytes : 0 < row) where
      abbrev step : ℕ → Memory → Memory
      step i = run_all run (started f (concat_layer l clusters i tid).1)

      step_copies :
          (i : ℕ) (m : Memory) (x : ℕ)
          → i < l.num_inputs
          → step i m x ≡ copy_rows l.height 0 (transfer i) m x
      unfolding run_all
      step_copies i m x hi = rw (issued i hi some_rows some_bytes) (engine (transfer i) m x)

      -- A byte that no row of the cluster's transfer covers stays.
      step_off :
          (i : ℕ) (m : Memory) (x : ℕ)
          → ((q : ℕ) → i < l.num_inputs → q < l.height → ¬ InRow (transfer i) q x)
          → step i m x ≡ m x
      unfolding run_all
      step_off i m x out = elim (dec_lt i l.num_inputs) [
        | yes hi ↦
            step_copies i m x hi
            ∙ copy_rows_off l.height 0 (transfer i) m x (λ q low high. out q hi (omega arith))
        | no high ↦ rw (idle i (omega arith)) refl
      ]

  -- With an engine that copies the rows in order, and at most as many inputs as there are clusters,
  -- `concat_layer` on all clusters leaves row `r` of input `i` as the `i`th part of row `r` of the
  -- output: each byte of the input, as it was before, at its place there. The output rows and the inputs
  -- have to lie below the end of the address space, the output rows with fewer than `2 ^ 31` bytes, and
  -- no input may overlap them.
  pub concat_places :
      (run : Transfer → Memory → Memory) (f : Setup) (clusters tid : ℕ) (m : Memory) (i r b : ℕ)
      → CopiesRows run
      → l.num_inputs ≤ clusters
      → i < l.num_inputs
      → r < l.height
      → b < l.width * 8
      → concat_all run f l clusters tid m (l.output + ((r * l.num_inputs + i) * (l.width * 8) + b))
        ≡ m (l.inputs i + (r * (l.width * 8) + b))
  unfolding concat_all
  concat_places run f clusters tid m i r b engine enough hi hr hb =
      let y : ℕ = l.output + ((r * l.num_inputs + i) * row + b) in
      let source : ℕ = l.inputs i + (r * row + b) in
      let inside : source < l.inputs i + l.height * row =
        omega (arith, next_row r l.height row hr) in
      let read : src_byte (transfer i) r 0 + (y - dst_byte (transfer i) r 0) ≡ source =
        omega (arith, src_at i r hi hr, dst_at i r hi hr) in
      loop_once _ y clusters m i (m source) (omega arith)
        (λ i' d hi' ne.
          step_off clusters tid f enough run engine (omega arith) (omega arith) i' d y
            (λ q few hq here. ne ((InRow-place i' q few hq r i b hi hb here).1)))
        (step_copies clusters tid f enough run engine (omega arith) (omega arith) i _ y hi
          ∙ copy_rows_at l.height 0 r y (transfer i) _ (omega arith) (omega arith)
              (place_in i r b hi hr hb)
              (λ q hq ne here. ne ((InRow-place i q hi (omega (arith, hq)) r i b hi hb here).0))
              (λ q hq.
                subst (λ x. ¬ InRow (transfer i) q x) (sym read)
                  (InRow-input i q hi (omega (arith, hq)) i source hi (omega arith) inside))
          ∙ ap
              (λ x. loop i (λ idx. run_all run (started f (concat_layer l clusters idx tid).1)) m x)
              read
          ∙ loop_off _ source i m (λ i' d hi'.
            step_off clusters tid f enough run engine (omega arith) (omega arith) i' d source
              (λ q few hq. InRow-input i' q few hq i source hi (omega arith) inside)))
