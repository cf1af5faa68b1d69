-- ===== src/Start/Copies.antt =====
-- What the one-dimensional transfers of the start-up code move (sw/snRuntime/src/start.c).
use snax_rebase.Base.{
  ℕ, zero, suc, ◌+◌, ◌-◌, ◌*◌, ◌%◌, ◌^◌, ◌<◌, ◌≤◌, ◌≡◌, ◌≢◌, ◌⊎◌, inl, inr, refl, ◌∙◌, ap, fun_ext,
  List, [], ◌∷◌, ◌++◌, Option, ltb, leb, ◌&&◌, if◌then◌else◌, arith,
}
use snax_rebase.Base.Loops.{loop, for_each}
use snax_rebase.Base.Memory.{Memory}
use snax_rebase.Base.Grid.{row_unique}
use snax_rebase.Dma.{Issue, start_1d_wideptr}
use snax_rebase.Dma.Engine.{Transfer, Setup, started, copy_rows, run_all}
use snax_rebase.Dma.Fill.{CopiesRows}
use snax_rebase.Dma.Rows.{inside, outside}
use snax_rebase.Dma.Start.{flat, start_1d_cases}

-- The memory after `size` bytes are copied from `src` to `dst`
abbrev pub copied : ℕ → ℕ → ℕ → Memory → Memory
copied dst src size m x = if leb dst x && ltb x (dst + size) then m (src + (x - dst)) else m x

-- An engine runs what the calls start, one transfer after the other; `f` is what earlier instructions
-- have left in it, on which no one-dimensional transfer depends.
unfoldable pub run_issued :
    (Transfer → Memory → Memory) → Setup → List (Option Issue) → Memory → Memory
unfolding run_all
run_issued run f [] m = m
run_issued run f (call ∷ calls) m = run_issued run f calls (run_all run (started f call) m)

row_zero : (a b : ℕ) → a + b < 2 ^ 64 → (a + 0 * 0 + b) % 2 ^ 64 ≡ a + b
row_zero a b h = omega arith

flat_lem :
    (dst src size : ℕ) (m : Memory) (x : ℕ)
    → src < 2 ^ 32
    → dst < 2 ^ 32
    → copy_rows 1 0 (flat dst src size) m x ≡ copied dst src size m x
unfolding copy_rows
flat_lem dst src size m x hs hd =
    rw (row_zero dst 0 (omega arith), row_zero src 0 (omega arith)) (ground arith)

module _ (run : Transfer → Memory → Memory) (f : Setup) (engine : CopiesRows run) where
  pub run_start_1d :
      (tid dst src size : ℕ) (calls : List (Option Issue)) (m : Memory)
      → src < 2 ^ 32
      → dst < 2 ^ 32
      → run_issued run f ((start_1d_wideptr tid dst src size).0 ∷ calls) m
        ≡ run_issued run f calls (copied dst src size m)
  unfolding run_issued run_all
  run_start_1d tid dst src zero calls m hs hd =
      rw ((start_1d_cases f tid dst src 0).1 refl).0
        (ap (run_issued run f calls) (fun_ext (λ x. ground arith)))
  run_start_1d tid dst src (suc size) calls m hs hd =
      rw ((start_1d_cases f tid dst src (suc size)).0 (omega arith)).0 (
        ap (run_issued run f calls) (
          fun_ext
            (λ x. engine (flat dst src (suc size)) m x ∙ flat_lem dst src (suc size) m x hs hd)))

  pub run-append :
      (xs ys : List (Option Issue)) (m : Memory)
      → run_issued run f (xs ++ ys) m ≡ run_issued run f ys (run_issued run f xs m)
  unfolding run_issued
  run-append [] ys m = refl
  run-append (x ∷ xs) ys m = run-append xs ys _

  -- A loop of calls is a loop of copies.
  pub run-for_each :
      (n : ℕ) (tid : ℕ) (dst : ℕ → ℕ) (src size : ℕ) (m : Memory)
      → src < 2 ^ 32
      → ((i : ℕ) → i < n → dst i < 2 ^ 32)
      → run_issued run f (for_each n (λ i. (start_1d_wideptr tid (dst i) src size).0 ∷ [])) m
        ≡ loop n (λ i. copied (dst i) src size) m
  unfolding for_each loop run_issued
  run-for_each zero tid dst src size m hs hd = refl
  run-for_each (suc n) tid dst src size m hs hd =
      run-append (for_each n (λ i. (start_1d_wideptr tid (dst i) src size).0 ∷ [])) _ m
      ∙ run_start_1d tid (dst n) src size [] _ hs (hd n (omega arith))
      ∙ ap (copied (dst n) src size)
          (run-for_each n tid dst src size m hs (λ i lt. hd i (omega arith)))

pub copied_off :
    (dst src size : ℕ) (m : Memory) (x : ℕ)
    → ¬ ((dst ≤ x) × (x < dst + size))
    → copied dst src size m x ≡ m x
copied_off dst src size m x out = outside dst size x (m (src + (x - dst))) (m x) out

-- The blocks of `size` bytes at `base + d + i * step`, for every `i`, with `d + size ≤ step`: which of
-- them holds a byte of row `i` of the grid of rows of `step` bytes.
module _ (base d src size step : ℕ) (fits : d + size ≤ step) (m : Memory) where
  pub copied_here :
      (i b x : ℕ)
      → b < size
      → x ≡ base + d + i * step + b
      → copied (base + d + i * step) src size m x ≡ m (src + b)
  copied_here i b x hb e =
      inside (base + d + i * step) size x _ _ (omega arith) (omega arith)
      ∙ ap (λ o. m (src + o)) (offset i b x e)
    where
      offset : (i b x : ℕ) → x ≡ base + d + i * step + b → x - (base + d + i * step) ≡ b
      offset i b x e = omega arith

  pub copied_elsewhere :
      (i j b : ℕ)
      → b < step
      → (i ≢ j) ⊎ (b < d) ⊎ (d + size ≤ b)
      → copied (base + d + j * step) src size m (base + i * step + b) ≡ m (base + i * step + b)
  copied_elsewhere i j b hb off =
      copied_off (base + d + j * step) src size m (base + i * step + b)
        (λ (low, high). clash off low high)
    where
      clash :
          (i ≢ j) ⊎ (b < d) ⊎ (d + size ≤ b)
          → base + d + j * step ≤ base + i * step + b
          → base + i * step + b < base + d + j * step + size
          → ⊥
      clash off low high =
          let same =
            row_unique i b j (base + i * step + b - (base + j * step)) step hb (omega arith)
              (omega arith) in
          elim off [
            | inl other ↦ other same.0
            | inr outside ↦ omega (arith, ap (λ (q : ℕ). q * step) same.0)
          ]

-- The transfers that the calls start, in order
unfoldable pub started_all : Setup → List (Option Issue) → List Transfer
started_all f [] = []
started_all f (call ∷ calls) = started f call ++ started_all f calls

run_all-append :
    (run : Transfer → Memory → Memory) (xs ys : List Transfer) (m : Memory)
    → run_all run (xs ++ ys) m ≡ run_all run ys (run_all run xs m)
unfolding run_all
run_all-append run [] ys m = refl
run_all-append run (x ∷ xs) ys m = run_all-append run xs ys (run x m)

pub run_all-started_all :
    (run : Transfer → Memory → Memory) (f : Setup) (calls : List (Option Issue)) (m : Memory)
    → run_all run (started_all f calls) m ≡ run_issued run f calls m
unfolding started_all run_issued run_all
run_all-started_all run f [] m = refl
run_all-started_all run f (call ∷ calls) m =
    run_all-append run (started f call) (started_all f calls) m
    ∙ run_all-started_all run f calls (run_all run (started f call) m)
