-- ===== src/Start/Tls.antt =====
-- Thread-local storage after `snrt_init_tls` (sw/snRuntime/src/start.c).
use snax_rebase.Base.{
  ℕ, zero, suc, ◌+◌, ◌-◌, ◌*◌, ◌^◌, ◌<◌, ◌≤◌, ◌≡◌, ◌⊎◌, inl, inr, refl, sym, ◌∙◌, ap, subst, true,
  if◌then◌else◌, ltb, lt→ltb, le→ltb, [], ◌∷◌, dec_lt, arith,
}
use snax_rebase.Base.Grid.{loop_off, loop_once}
use snax_rebase.Base.Loops.{loop, for_each, loop-ext}
use snax_rebase.Base.Memory.{Memory}
use snax_rebase.Base.Words.{add_u32, sub_u32, mul_u32}
use snax_rebase.Dma.{start_1d, start_1d_wideptr}
use snax_rebase.Dma.Engine.{Transfer, Setup}
use snax_rebase.Dma.Fill.{CopiesRows}
use snax_rebase.Start.{Symbols, tls_offset, init_tls}
use snax_rebase.Start.Copies.{
  copied, copied_off, copied_here, copied_elsewhere, run_issued, run_start_1d, run-append,
  run-for_each,
}
use snax_rebase.Team.{Config, is_dm_core}

abbrev pub tdata_size : Symbols → ℕ
tdata_size k = k.tdata_end - k.tdata_start

abbrev pub tbss_size : Symbols → ℕ
tbss_size k = k.tbss_end - k.tbss_start

-- The distance of two cores' storage
abbrev pub stack : Symbols → ℕ
stack k = 2 ^ k.log2_stack_size + 8

-- The blocks of all cores, from `ptr` on, lie inside the address space; the initial image and the zero
-- memory lie inside it too, and outside the blocks.
pub record Room (k : Symbols) (c : Config) (ptr : ℕ) : Type 0 where
  pub some_core : 0 < c.cluster_core_num
  pub tdata : (k.tdata_start ≤ k.tdata_end) × (k.tdata_end < 2 ^ 32)
  pub tbss : (k.tbss_start ≤ k.tbss_end) × (k.tbss_end < 2 ^ 32)
  pub fits : tdata_size k + tbss_size k ≤ stack k
  pub top : ptr + c.cluster_core_num * stack k < 2 ^ 32
  pub zero_top : k.zero_memory + tbss_size k < 2 ^ 32
  pub image_apart : (k.tdata_end ≤ ptr) ⊎ (ptr + c.cluster_core_num * stack k ≤ k.tdata_start)
  pub zero_apart :
      (k.zero_memory + tbss_size k ≤ ptr) ⊎ (ptr + c.cluster_core_num * stack k ≤ k.zero_memory)

pub row_end : (i n s : ℕ) → i < n → i * s + s ≤ n * s
row_end i n s h = grind arith

module _ (k : Symbols) (c : Config) (ptr : ℕ) (room : Room k c ptr) where
  open room use {some_core, tdata, tbss, fits, top, zero_top, image_apart, zero_apart}

  abbrev cores : ℕ
  cores = c.cluster_core_num

  sizes :
      (sub_u32 k.tdata_end k.tdata_start ≡ tdata_size k)
      × (sub_u32 k.tbss_end k.tbss_start ≡ tbss_size k)
  sizes = (omega (arith, tdata), omega (arith, tbss))

  one_row : stack k ≤ cores * stack k
  one_row = omega (arith, row_end 0 cores (stack k) some_core)

  offset : tls_offset k ≡ stack k
  unfolding tls_offset
  offset = omega (arith, one_row, top)

  -- Where the copies go
  to_data : (i : ℕ) → i < cores → add_u32 ptr (mul_u32 i (stack k)) ≡ ptr + i * stack k
  to_data i h = omega (arith, row_end i cores (stack k) h, top)

  to_bss :
      (i : ℕ)
      → i < cores
      → add_u32 (add_u32 ptr (tdata_size k)) (mul_u32 i (stack k))
        ≡ ptr + tdata_size k + i * stack k
  to_bss i h = omega (arith, row_end i cores (stack k) h, top, fits, one_row)

  abbrev data_dst : ℕ → ℕ
  data_dst i = add_u32 ptr (mul_u32 (i + 1) (stack k))

  abbrev bss_dst : ℕ → ℕ
  bss_dst i = add_u32 (add_u32 ptr (tdata_size k)) (mul_u32 i (stack k))

  -- The memory after each of the three parts
  abbrev first : Memory → Memory
  first = copied ptr k.tdata_start (tdata_size k)

  abbrev data_to : ℕ → Memory → Memory
  data_to i = copied (ptr + 0 + (i + 1) * stack k) ptr (tdata_size k)

  abbrev bss_to : ℕ → Memory → Memory
  bss_to i = copied (ptr + tdata_size k + i * stack k) k.zero_memory (tbss_size k)

  abbrev after_tls : Memory → Memory
  after_tls m = loop cores bss_to (loop (cores - 1) data_to (first m))

  module _ (run : Transfer → Memory → Memory) (f : Setup) (engine : CopiesRows run) where
    tls_runs :
        (tid hartid : ℕ) (m : Memory)
        → is_dm_core c hartid ≡ true
        → run_issued run f (init_tls k c tid hartid ptr) m ≡ after_tls m
    unfolding init_tls start_1d
    tls_runs tid hartid m dm =
        simp (dm, sizes.0, sizes.1, offset)
          (run_start_1d run f engine tid ptr k.tdata_start (tdata_size k) _ m (omega (arith, tdata))
              (omega (arith, top))
            ∙ run-append run f engine
                (for_each (cores - 1)
                  (λ i. (start_1d_wideptr tid (data_dst i) ptr (tdata_size k)).0 ∷ []))
                (for_each cores
                  (λ i. (start_1d_wideptr tid (bss_dst i) k.zero_memory (tbss_size k)).0 ∷ []))
                (first m)
            ∙ run-for_each run f engine cores tid bss_dst k.zero_memory (tbss_size k) _
                (omega (arith, zero_top))
                (λ i h. rw (to_bss i h) (omega (arith, row_end i cores (stack k) h, top, fits)))
            ∙ loop-ext cores _ bss_to _
                (λ i m h. ap (λ p. copied p k.zero_memory (tbss_size k) m) (to_bss i h))
            ∙ ap (loop cores bss_to) (
                run-for_each run f engine (cores - 1) tid data_dst ptr (tdata_size k) (first m)
                  (omega (arith, top))
                  (λ i h.
                    rw (to_data (i + 1) (omega arith))
                      (omega (arith, row_end (i + 1) cores (stack k) (omega arith), top)))
                ∙ loop-ext (cores - 1) _ data_to _ (λ i m h.
                  ap (λ p. copied p ptr (tdata_size k) m)
                    (to_data (i + 1) (omega arith) ∙ omega arith))))

  -- A byte outside the blocks
  abbrev Outside : ℕ → Type 0
  Outside x = (x < ptr) ⊎ (ptr + cores * stack k ≤ x)

  block_off :
      (d src size i x : ℕ) (m : Memory)
      → d + size ≤ stack k
      → i < cores
      → Outside x
      → copied (ptr + d + i * stack k) src size m x ≡ m x
  block_off d src size i x m inner hi out =
      copied_off (ptr + d + i * stack k) src size m x (λ (low, high). clash out low high)
    where
      clash : Outside x → ptr + d + i * stack k ≤ x → x < ptr + d + i * stack k + size → ⊥
      clash (inl below) low high = omega arith
      clash (inr above) low high = omega (arith, row_end i cores (stack k) hi)

  row0 : ptr + 0 + 0 * stack k ≡ ptr
  row0 = omega arith

  own : ptr + 0 * stack k ≡ ptr
  own = omega arith

  first_lem : (m : Memory) → first m ≡ copied (ptr + 0 + 0 * stack k) k.tdata_start (tdata_size k) m
  first_lem m = ap (λ p. copied p k.tdata_start (tdata_size k) m) (sym row0)

  data_fits : 0 + tdata_size k ≤ stack k
  data_fits = omega (arith, fits)

  loaded_off : (n x : ℕ) (m : Memory) → n ≤ cores - 1 → Outside x → loop n data_to (first m) x ≡ m x
  loaded_off n x m hn out =
      loop_off data_to x n (first m)
        (λ i d h. block_off 0 ptr (tdata_size k) (i + 1) x d data_fits (omega arith) out)
      ∙ ap (λ g. g x) (first_lem m)
      ∙ block_off 0 k.tdata_start (tdata_size k) 0 x m data_fits some_core out

  bss_off : (n x : ℕ) (m : Memory) → n ≤ cores → Outside x → loop n bss_to m x ≡ m x
  bss_off n x m hn out =
      loop_off bss_to x n m
        (λ i d h. block_off (tdata_size k) k.zero_memory (tbss_size k) i x d fits (omega arith) out)

  after_tls_off : (x : ℕ) (m : Memory) → Outside x → after_tls m x ≡ m x
  after_tls_off x m out =
      bss_off cores x _ (omega arith) out ∙ loaded_off (cores - 1) x m (omega arith) out

  -- The data mover core's own block is loaded first and stays.
  own_data :
      (n b : ℕ) (m : Memory)
      → b < tdata_size k
      → loop n data_to (first m) (ptr + b) ≡ m (k.tdata_start + b)
  own_data n b m hb =
      subst (λ x. loop n data_to (first m) (x + b) ≡ m (k.tdata_start + b)) own
        (loop_off data_to _ n (first m) (λ i d h.
            copied_elsewhere ptr 0 ptr (tdata_size k) (stack k) data_fits d 0 (i + 1) b
              (omega (arith, fits)) (inl (omega arith)))
          ∙ ap (λ g. g (ptr + 0 * stack k + b)) (first_lem m)
          ∙ copied_here ptr 0 k.tdata_start (tdata_size k) (stack k) data_fits m 0 b _ hb
              (omega arith))

  loaded :
      (i b : ℕ) (m : Memory)
      → i < cores
      → b < tdata_size k
      → loop (cores - 1) data_to (first m) (ptr + i * stack k + b) ≡ m (k.tdata_start + b)
  loaded zero b m hi hb =
      subst (λ x. loop (cores - 1) data_to (first m) (x + b) ≡ m (k.tdata_start + b)) (sym own)
        (own_data (cores - 1) b m hb)
  loaded (suc i) b m hi hb =
      loop_once data_to (ptr + suc i * stack k + b) (cores - 1) (first m) i _ (omega arith)
        (λ j d h ne.
          copied_elsewhere ptr 0 ptr (tdata_size k) (stack k) data_fits d (suc i) (j + 1) b
            (omega (arith, fits)) (inl (λ e. ne (omega arith))))
        (copied_here ptr 0 ptr (tdata_size k) (stack k) data_fits (loop i data_to (first m)) (i + 1)
            b _ hb (omega arith)
          ∙ own_data i b m hb)

  data_in :
      (i b : ℕ) (m : Memory)
      → i < cores
      → b < tdata_size k
      → after_tls m (ptr + i * stack k + b) ≡ m (k.tdata_start + b)
  data_in i b m hi hb =
      loop_off bss_to (ptr + i * stack k + b) cores (loop (cores - 1) data_to (first m)) (λ j d h.
        copied_elsewhere ptr (tdata_size k) k.zero_memory (tbss_size k) (stack k) fits d i j b
          (omega (arith, fits)) (inr (inl hb)))
      ∙ loaded i b m hi hb

  zero-Outside : (b : ℕ) → b < tbss_size k → Outside (k.zero_memory + b)
  zero-Outside b hb = elim zero_apart [
    | inl before ↦ inl (omega arith)
    | inr after ↦ inr (omega arith)
  ]

  bss_in :
      (i b : ℕ) (m : Memory)
      → i < cores
      → b < tbss_size k
      → after_tls m (ptr + i * stack k + (b + tdata_size k)) ≡ m (k.zero_memory + b)
  bss_in i b m hi hb =
      let out = zero-Outside b hb in
      loop_once bss_to (ptr + i * stack k + (b + tdata_size k)) cores
        (loop (cores - 1) data_to (first m)) i _ hi
        (λ j d h ne.
          copied_elsewhere ptr (tdata_size k) k.zero_memory (tbss_size k) (stack k) fits d i j
            (b + tdata_size k) (omega (arith, fits)) (inl (λ e. ne (sym e))))
        (copied_here ptr (tdata_size k) k.zero_memory (tbss_size k) (stack k) fits
            (loop i bss_to (loop (cores - 1) data_to (first m))) i b _ hb (omega arith)
          ∙ bss_off i (k.zero_memory + b) _ (omega arith) out
          ∙ loaded_off (cores - 1) (k.zero_memory + b) m (omega arith) out)

  -- What the transfers leave at each place
  pub init_tls_fills :
      (run : Transfer → Memory → Memory) (f : Setup) (tid hartid i b x : ℕ) (m : Memory)
      → CopiesRows run
      → is_dm_core c hartid ≡ true
      → i < cores
      → b < tdata_size k + tbss_size k
      → ((z : ℕ) → z < tbss_size k → m (k.zero_memory + z) ≡ 0)
      → Outside x
      → let m' = run_issued run f (init_tls k c tid hartid ptr) m in
        (m' (ptr + i * stack k + b) ≡ (if ltb b (tdata_size k) then m (k.tdata_start + b) else 0))
        × (m' x ≡ m x)
  init_tls_fills run f tid hartid i b x m engine dm hi hb zeros out =
      let same = tls_runs run f engine tid hartid m dm in
      (
        ap (λ g. g (ptr + i * stack k + b)) same ∙ elim (dec_lt b (tdata_size k)) [
          | yes low ↦ data_in i b m hi low ∙ rw (lt→ltb b (tdata_size k) low) refl
          | no high ↦ rw (le→ltb b (tdata_size k) (omega arith)) (
              split b (omega arith)
              ∙ bss_in i (b - tdata_size k) m hi (omega arith)
              ∙ zeros (b - tdata_size k) (omega arith))
        ],
        ap (λ g. g x) same ∙ after_tls_off x m out,
      )
    where
      split :
          (b : ℕ)
          → tdata_size k ≤ b
          → after_tls m (ptr + i * stack k + b)
            ≡ after_tls m (ptr + i * stack k + (b - tdata_size k + tdata_size k))
      split b h = ap (λ (q : ℕ). after_tls m (ptr + i * stack k + q)) (omega arith)
