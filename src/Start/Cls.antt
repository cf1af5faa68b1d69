-- ===== src/Start/Cls.antt =====
-- Cluster-local and zero-initialised storage (sw/snRuntime/src/start.c).
use snax_rebase.Base.{ℕ, ◌+◌, ◌-◌, ◌^◌, ◌<◌, ◌≤◌, ◌⊎◌, Bool, ◌==◌, ◌&&◌, ltb, leb, if◌then◌else◌}
use snax_rebase.Base.Memory.{Memory}
use snax_rebase.Dma.Engine.{Transfer, Setup}
use snax_rebase.Dma.Fill.{CopiesRows}
use snax_rebase.Start.{Symbols, cls_base_addr}
use snax_rebase.Start.Copies.{copied}
use snax_rebase.Team.{Config, cluster_idx}

-- Byte `x` lies in the `n` bytes from `p` on.
abbrev pub within : ℕ → ℕ → ℕ → Bool
within p n x = leb p x && ltb x (p + n)

abbrev pub Apart : ℕ → ℕ → ℕ → ℕ → Type 0
Apart p n q k = (p + n ≤ q) ⊎ (q + k ≤ p)

abbrev pub cdata_size : Symbols → ℕ
cdata_size k = k.cdata_end - k.cdata_start

abbrev pub cbss_size : Symbols → ℕ
cbss_size k = k.cbss_end - k.cbss_start

abbrev pub bss_size : Symbols → ℕ
bss_size k = k.bss_end - k.bss_start

-- The symbols are in order, and what is written overlaps nothing that is read or written.
pub record Room (k : Symbols) (base : ℕ) : Type 0 where
  pub cdata : (k.cdata_start ≤ k.cdata_end) × (k.cdata_end < 2 ^ 32)
  pub cbss : (k.cbss_start ≤ k.cbss_end) × (k.cbss_end < 2 ^ 32)
  pub bss : (k.bss_start ≤ k.bss_end) × (k.bss_end < 2 ^ 32)
  pub top : base + cdata_size k + cbss_size k < 2 ^ 32
  pub zero_top : k.zero_memory < 2 ^ 32
  pub image_cls : Apart k.cdata_start (cdata_size k) base (cdata_size k + cbss_size k)
  pub image_bss : Apart k.cdata_start (cdata_size k) k.bss_start (bss_size k)
  pub zero_cls : Apart k.zero_memory (cbss_size k) base (cdata_size k + cbss_size k)
  pub zero_bss : Apart k.zero_memory (cbss_size k) k.bss_start (bss_size k)
  pub bss_cls : Apart k.bss_start (bss_size k) base (cdata_size k + cbss_size k)

-- What the transfers of `snrt_init_bss` and `snrt_init_cls` leave in a cluster whose data mover core
-- has the hart id `g`: the image at the base of the cluster-local storage, zeros behind it, zeros in
-- `.bss` if it is cluster 0, and every other byte as it was.
abbrev pub filled : Symbols → Config → ℕ → Memory → Memory
filled k c g m x =
    let base = cls_base_addr k c g in
    if within base (cdata_size k) x
    then m (k.cdata_start + (x - base))
    else if within (base + cdata_size k) (cbss_size k) x
    then 0
    else if cluster_idx c g == 0 && within k.bss_start (bss_size k) x
    then 0
    else m x

module _ (k : Symbols) (c : Config) (g : ℕ) (room : Room k (cls_base_addr k c g))
    (run : Transfer → Memory → Memory) (f : Setup) (engine : CopiesRows run) where
  open room use {cdata, cbss, bss, top, zero_top, image_cls, image_bss, zero_cls, zero_bss, bss_cls}

  abbrev base : ℕ
  base = cls_base_addr k c g

  abbrev after_cls : Memory → Memory
  after_cls m =
      copied (base + cdata_size k) k.zero_memory (cbss_size k)
        (copied base k.cdata_start (cdata_size k) m)

  abbrev after_bss : Memory → Memory
  after_bss m = if cluster_idx c g == 0 then copied k.bss_start k.zero_memory (bss_size k) m else m
