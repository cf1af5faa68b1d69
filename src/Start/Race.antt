-- ===== src/Start/Race.antt =====
-- The store of `_cls_ptr` in `snrt_init_cls`, while the engine still runs the transfers that
-- `snrt_init_tls` has started (sw/snRuntime/src/start.c, cls.c).
use snax_rebase.Base.{
  ℕ, ◌+◌, ◌-◌, ◌*◌, ◌/◌, ◌%◌, ◌^◌, ◌<◌, ◌≤◌, ◌≡◌, inl, inr, refl, ◌∙◌, ap, Bool, true, false, List,
  [], ◌∷◌, ltb, leb, ◌&&◌, if◌then◌else◌, le→ltb, arith,
}
use snax_rebase.Base.Memory.{Memory}
use snax_rebase.Dma.Engine.{Transfer, Setup, run_all}
use snax_rebase.Dma.Fill.{CopiesRows}
use snax_rebase.Dma.Rows.{inside, outside}
use snax_rebase.Start.{Symbols, init_tls, init_cls, cls_base_addr}
use snax_rebase.Start.Copies.{run_issued, started_all, run_all-started_all}
use snax_rebase.Start.Stacks.{cls_base_u32}
use snax_rebase.Start.Tls.{Room, tdata_size, tbss_size, stack, init_tls_fills, row_end}
use snax_rebase.Team.{Config, is_dm_core}

-- A word in memory, lowest byte first.
abbrev pub store_word : ℕ → ℕ → Memory → Memory
store_word a v m x = if leb a x && ltb x (a + 4) then v / 256 ^ (x - a) % 256 else m x

abbrev pub load_word : Memory → ℕ → ℕ
load_word m a = m a + 2 ^ 8 * m (a + 1) + 2 ^ 16 * m (a + 2) + 2 ^ 24 * m (a + 3)

-- The transfers that the engine has not run yet, and whether the core has stored its pointer.
pub record System : Type 0 where
  pub pending : List Transfer
  pub memory : Memory
  pub stored : Bool

-- The engine runs its next transfer, or the core, which has left the barrier, executes
-- `_cls_ptr = ...`, with its variable at `place`.
pub data Step (run : Transfer → Memory → Memory) (place value : ℕ) : System → System → Type 0 where
  transfer :
      {t : Transfer} {ts : List Transfer} {m : Memory} {w : Bool}
      → Step run place value
          (record { pending = t ∷ ts; memory = m; stored = w })
          (record { pending = ts; memory = run t m; stored = w })
  store :
      {ts : List Transfer} {m : Memory}
      → Step run place value
          (record { pending = ts; memory = m; stored = false })
          (record { pending = ts; memory = store_word place value m; stored = true })

pub data Steps (run : Transfer → Memory → Memory) (place value : ℕ) (s : System)
    : System → Type 0 where
  none_yet : Steps run place value s s
  more :
      {t u : System}
      → Steps run place value s t
      → Step run place value t u
      → Steps run place value s u

-- A run to the end, where the wait for the engine has returned and the pointer is stored, that leaves
-- `left` in the variable.
pub record Ends (run : Transfer → Memory → Memory) (place value : ℕ) (s : System) (left : ℕ)
    : Type 0 where
  pub final : System
  pub steps : Steps run place value s final
  pub idle : final.pending ≡ []
  pub after_store : final.stored ≡ true
  pub holds : load_word final.memory place ≡ left

module _ (run : Transfer → Memory → Memory) (place value : ℕ) (s : System) where
  -- The engine works through what is pending.
  drain :
      (ts : List Transfer) (m : Memory) (w : Bool)
      → Steps run place value s (record { pending = ts; memory = m; stored = w })
      → Steps run place value s (record { pending = []; memory = run_all run ts m; stored = w })
  unfolding run_all
  drain [] m w sofar = sofar
  drain (t ∷ ts) m w sofar = drain ts (run t m) w (more sofar transfer)

place_0 : (a : ℕ) → a ≡ a + 0
place_0 a = omega arith

stored_at : (a v j x : ℕ) (m : Memory) → j < 4 → x ≡ a + j → store_word a v m x ≡ v / 256 ^ j % 256
stored_at a v j x m h e =
    inside a 4 x (v / 256 ^ (x - a) % 256) (m x) (omega arith) (omega arith)
    ∙ ap (λ (q : ℕ). v / 256 ^ q % 256) (omega arith)

load-store : (a v : ℕ) (m : Memory) → v < 2 ^ 32 → load_word (store_word a v m) a ≡ v
load-store a v m h =
    rw
      (
        stored_at a v 0 a m (omega arith) (omega arith),
        stored_at a v 1 (a + 1) m (omega arith) refl,
        stored_at a v 2 (a + 2) m (omega arith) refl,
        stored_at a v 3 (a + 3) m (omega arith) refl,
      )
      (omega arith)

module _ (k : Symbols) (c : Config) (ptr : ℕ) (room : Room k c ptr) where
  module _ (i o value : ℕ) (m : Memory) (hi : i < c.cluster_core_num) (ho : o + 4 ≤ tbss_size k)
      (zeros : (z : ℕ) → z < tbss_size k → m (k.zero_memory + z) ≡ 0) where
    abbrev place : ℕ
    place = ptr + i * stack k + (o + tdata_size k)

    zeros_stay : (z : ℕ) → z < tbss_size k → store_word place value m (k.zero_memory + z) ≡ 0
    zeros_stay z h =
        outside place 4 (k.zero_memory + z) _ (m (k.zero_memory + z))
          (λ (low, high). clash low high)
        ∙ zeros z h
      where
        clash : place ≤ k.zero_memory + z → k.zero_memory + z < place + 4 → ⊥
        clash low high = elim room.zero_apart [
          | inl before ↦ omega arith
          | inr after ↦ omega (arith, row_end i c.cluster_core_num (stack k) hi, room.fits)
        ]

    module _ (run : Transfer → Memory → Memory) (f : Setup) (tid g : ℕ) (engine : CopiesRows run)
        (dm : is_dm_core c g ≡ true) where
      abbrev late : Memory
      late = run_issued run f (init_tls k c tid g ptr) (store_word place value m)

      cleared : (j : ℕ) → j < 4 → late (place + j) ≡ 0
      cleared j h =
          ap late (omega arith)
          ∙ (init_tls_fills k c ptr room run f tid g i (o + j + tdata_size k)
              (ptr + c.cluster_core_num * stack k) (store_word place value m) engine dm hi
              (omega arith) zeros_stay (inr (omega arith))).0
          ∙ rw (le→ltb (o + j + tdata_size k) (tdata_size k) (omega arith)) refl

      cleared_word : load_word late place ≡ 0
      cleared_word = omega (
        arith,
        ap late (place_0 place) ∙ cleared 0 (omega arith),
        cleared 1 (omega arith),
        cleared 2 (omega arith),
        cleared 3 (omega arith),
      )

  -- With an engine that copies the rows in order, and the variable of a core inside the `.tbss` part of
  -- its block, two runs from the barrier of `snrt_init_tls` to the wait for the engine end differently:
  -- in one the core's `_cls_ptr` is the value that `snrt_init_cls` stored, in the other it is 0.
  pub cls_ptr_race :
      (run : Transfer → Memory → Memory) (f : Setup) (tid g h i o : ℕ) (m : Memory)
      → CopiesRows run
      → is_dm_core c g ≡ true
      → i < c.cluster_core_num
      → o + 4 ≤ tbss_size k
      → ((z : ℕ) → z < tbss_size k → m (k.zero_memory + z) ≡ 0)
      → let spot = ptr + i * stack k + (o + tdata_size k) in
        let value = (init_cls k c tid h).0 in
        let start : System = record {
          pending = started_all f (init_tls k c tid g ptr);
          memory = m;
          stored = false;
        } in
        Ends run spot value start value × Ends run spot value start 0
  unfolding init_cls
  cls_ptr_race run f tid g h i o m engine dm hi ho zeros =
      let value : ℕ = cls_base_addr k c h in
      let start : System = record {
        pending = started_all f (init_tls k c tid g ptr);
        memory = m;
        stored = false;
      } in
      (
        record {
          final = record { pending = []; memory = store_word _ value _; stored = true };
          steps = more (drain run _ value start _ m false none_yet) store;
          idle = refl;
          after_store = refl;
          holds =
              load-store (ptr + i * stack k + (o + tdata_size k)) value
                (run_all run start.pending m) (cls_base_u32 k c h);
        },
        record {
          final = record {
            pending = [];
            memory = run_all run start.pending (store_word (place i o value m hi ho zeros) value m);
            stored = true;
          };
          steps = drain run _ value start _ _ true (more none_yet store);
          idle = refl;
          after_store = refl;
          holds =
              ap (λ (g : Memory). load_word g (place i o value m hi ho zeros))
                (run_all-started_all run f (init_tls k c tid g ptr) _)
              ∙ cleared_word i o value m hi ho zeros run f tid g engine dm;
        },
      )
