-- ===== src/Start/Stacks.antt =====
-- Where `snrt_init_tls` finds the storage of the other cores (sw/snRuntime/src/start.c, start.S).
use snax_rebase.Base.{
  ℕ, ◌+◌, ◌-◌, ◌*◌, ◌%◌, ◌/◌, ◌^◌, ◌<◌, ◌≤◌, ◌≡◌, ◌⊎◌, refl, ◌∙◌, ap, true, if◌then◌else◌, ltb,
  arith,
}
use snax_rebase.Alloc.{align_down, min_chunk_size}
use snax_rebase.Alloc.Align.{align_down_value}
use snax_rebase.Base.Memory.{Memory}
use snax_rebase.Base.Words.{sub_u32, mul_u32}
use snax_rebase.Dma.Engine.{Transfer, Setup}
use snax_rebase.Dma.Fill.{CopiesRows}
use snax_rebase.Start.{Symbols, cls_base_addr, thread_ptr, init_tls}
use snax_rebase.Start.Copies.{run_issued}
use snax_rebase.Start.Tls.{Room, tdata_size, tbss_size, stack, init_tls_fills, row_end}
use snax_rebase.Team.{Config, cluster_idx, cluster_core_idx, is_dm_core}

-- The stacks of the cores of a hart's cluster fit below the cluster-local storage, and keep the
-- alignment of the thread pointers.
pub record Stacks (k : Symbols) (c : Config) (hartid : ℕ) : Type 0 where
  pub aligned : 2 ^ k.log2_stack_size % 8 ≡ 0
  pub room :
      c.cluster_core_num * stack k + tdata_size k + tbss_size k + 16 ≤ cls_base_addr k c hartid

pub cls_base_u32 : (k : Symbols) (c : Config) (h : ℕ) → cls_base_addr k c h < 2 ^ 32
unfolding cls_base_addr
cls_base_u32 k c h = omega arith

align_shift : (x u : ℕ) → x + 8 * u - (x + 8 * u) % 8 ≡ x - x % 8 + 8 * u
align_shift x u = omega arith

scale : (d q s : ℕ) → s ≡ 8 * q → d * s ≡ 8 * (d * q)
scale d q s e = omega (arith, ap (λ (t : ℕ). d * t) e)

-- The subtractions of the thread pointer do not wrap.
pointer_chain :
    (base core p ts te bs be : ℕ)
    → base < 2 ^ 32
    → (ts ≤ te) × (te < 2 ^ 32)
    → (bs ≤ be) × (be < 2 ^ 32)
    → core * (p + 8) + (te - ts) + (be - bs) + 16 ≤ base
    → sub_u32
        (sub_u32
          (sub_u32 (sub_u32 (sub_u32 base 8) (mul_u32 core p)) (mul_u32 core 8))
          (sub_u32 te ts))
        (sub_u32 be bs)
      ≡ base - 8 - core * (p + 8) - (te - ts) - (be - bs)
pointer_chain base core p ts te bs be small td tb room = omega arith

split_rows : (i d n s : ℕ) → i + d ≡ n → n * s ≡ i * s + d * s
split_rows i d n s e = omega (arith, ap (λ (t : ℕ). t * s) e)

module _ (k : Symbols) (c : Config) where
  abbrev low_end : ℕ → ℕ → ℕ
  low_end base core = base - 8 - core * stack k - tdata_size k - tbss_size k

  thread_ptr_value :
      (h : ℕ)
      → (k.tdata_start ≤ k.tdata_end) × (k.tdata_end < 2 ^ 32)
      → (k.tbss_start ≤ k.tbss_end) × (k.tbss_end < 2 ^ 32)
      → cluster_core_idx c h * stack k + tdata_size k + tbss_size k + 16 ≤ cls_base_addr k c h
      → thread_ptr k c h
        ≡ low_end (cls_base_addr k c h) (cluster_core_idx c h)
          - low_end (cls_base_addr k c h) (cluster_core_idx c h) % 8
  unfolding thread_ptr
  thread_ptr_value h td tb room =
      let base = cls_base_addr k c h in
      let core = cluster_core_idx c h in
      ap (λ p. align_down p min_chunk_size)
        (pointer_chain base core (2 ^ k.log2_stack_size) k.tdata_start k.tdata_end k.tbss_start
          k.tbss_end (cls_base_u32 k c h) td tb room)
      ∙ align_down_value (low_end base core) (omega (arith, cls_base_u32 k c h))

  cls_base_same :
      (g h : ℕ) → cluster_idx c h ≡ cluster_idx c g → cls_base_addr k c h ≡ cls_base_addr k c g
  unfolding cls_base_addr
  cls_base_same g h e = rw e refl

  -- In a cluster whose stacks fit, where the data mover core is the last core, the thread pointer of
  -- every core is as many times the offset of `snrt_init_tls` above the data mover core's as it stands
  -- before that core.
  pub thread_ptr_apart :
      (g h : ℕ)
      → (k.tdata_start ≤ k.tdata_end) × (k.tdata_end < 2 ^ 32)
      → (k.tbss_start ≤ k.tbss_end) × (k.tbss_end < 2 ^ 32)
      → cluster_idx c h ≡ cluster_idx c g
      → cluster_core_idx c g ≡ c.cluster_core_num - 1
      → cluster_core_idx c h < c.cluster_core_num
      → Stacks k c g
      → thread_ptr k c h
        ≡ thread_ptr k c g + (c.cluster_core_num - 1 - cluster_core_idx c h) * stack k
  thread_ptr_apart g h td tb same last lt stacks =
      let d : ℕ = c.cluster_core_num - 1 - cluster_core_idx c h in
      let q : ℕ = 2 ^ k.log2_stack_size / 8 + 1 in
      let eight : stack k ≡ 8 * q = omega (arith, stacks.aligned) in
      let base = cls_base_same g h same in
      let above =
        split_rows (cluster_core_idx c h) d (cluster_core_idx c g) (stack k) (omega arith) in
      let whole = row_end (cluster_core_idx c g) c.cluster_core_num (stack k) (omega arith) in
      omega (
        arith,
        thread_ptr_value g td tb (omega (arith, stacks.room, whole)),
        thread_ptr_value h td tb (omega (arith, stacks.room, whole, base, above)),
        base,
        above,
        whole,
        stacks.room,
        align_shift (low_end (cls_base_addr k c g) (cluster_core_idx c g)) (d * q),
        scale d q (stack k) eight,
      )

  -- When the engine has carried out the transfers that `snrt_init_tls` of the data mover core starts, for
  -- which the function itself does not wait, and nothing else has written meanwhile: byte `b` of the
  -- storage that any core of the cluster finds at its thread pointer is byte `b` of the initial image,
  -- or zero behind it; and no byte outside the cores' blocks has changed. The data mover core is the last
  -- core of its cluster, and the engine copies the rows in order. The stacks have to fit below the cluster-local storage, with the stack size a
  -- multiple of 8, the blocks inside the address space and at most `tls_offset` long, the image and the
  -- zero memory outside them, and the zero memory full of zeros.
  pub init_tls_reaches :
      (run : Transfer → Memory → Memory) (f : Setup) (tid g h b x : ℕ) (m : Memory)
      → CopiesRows run
      → is_dm_core c g ≡ true
      → cluster_idx c h ≡ cluster_idx c g
      → cluster_core_idx c g ≡ c.cluster_core_num - 1
      → cluster_core_idx c h < c.cluster_core_num
      → Stacks k c g
      → Room k c (thread_ptr k c g)
      → b < tdata_size k + tbss_size k
      → ((z : ℕ) → z < tbss_size k → m (k.zero_memory + z) ≡ 0)
      → (x < thread_ptr k c g) ⊎ (thread_ptr k c g + c.cluster_core_num * stack k ≤ x)
      → let m' = run_issued run f (init_tls k c tid g (thread_ptr k c g)) m in
        (m' (thread_ptr k c h + b) ≡ (if ltb b (tdata_size k) then m (k.tdata_start + b) else 0))
        × (m' x ≡ m x)
  init_tls_reaches run f tid g h b x m engine dm same last lt stacks room hb zeros out =
      let filled =
        init_tls_fills k c (thread_ptr k c g) room run f tid g
          (c.cluster_core_num - 1 - cluster_core_idx c h) b x m engine dm (omega arith) hb zeros
          out in
      (
        ap (λ (p : ℕ). run_issued run f (init_tls k c tid g (thread_ptr k c g)) m (p + b))
              (thread_ptr_apart g h room.tdata room.tbss same last lt stacks)
            ∙ filled.0,
        filled.1,
      )
