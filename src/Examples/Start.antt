-- ===== src/Examples/Start.antt =====
-- The start-up code at concrete values (sw/snRuntime/src/start.c).
use snax_rebase.Base.{
  ◌+◌, ◌*◌, ◌%◌, ◌^◌, ◌≡◌, ◌↔◌, inl, inr, refl, false, [], ◌∷◌, some, ltb, if◌then◌else◌, arith,
}
use snax_rebase.Base.Memory.{Memory}
use snax_rebase.Dma.Engine.{Transfer, Setup, copy_rows}
use snax_rebase.Start.{
  Symbols, cls_base_addr, thread_ptr, init_tls, init_cls, all_to_all_reduction, exit_default,
}
use snax_rebase.Start.Copies.{run_issued, started_all}
use snax_rebase.Start.Exit.{sum, exit_code_sum}
use snax_rebase.Start.Race.{System, Ends, cls_ptr_race}
use snax_rebase.Start.Stacks.{Stacks, init_tls_reaches}
use snax_rebase.Start.Cls
use snax_rebase.Start.Tls
use snax_rebase.Team.{Config, is_dm_core, global_core_idx}

abbrev three_cores : Config
three_cores = record {
  base_hartid = 0;
  cluster_num = 1;
  cluster_core_num = 3;
  cluster_dm_core_num = 1;
}

abbrev image : Symbols
image = record {
  tdata_start = 0x80001000;
  tdata_end = 0x80001008;
  tbss_start = 0x80001008;
  tbss_end = 0x80001018;
  bss_start = 0x80003000;
  bss_end = 0x80003040;
  cdata_start = 0x80002000;
  cdata_end = 0x80002010;
  cbss_start = 0x80002010;
  cbss_end = 0x80002020;
  zero_memory = 0x10030000;
  tcdm_start_addr = 0x10000000;
  tcdm_size = 0x20000;
  cluster_offset = 0x40000;
  log2_stack_size = 10;
}

-- The low byte of each address, except in the zero memory
abbrev bytes : Memory
bytes x = if ltb x 0x80000000 then 0 else x % 256

abbrev engine : Transfer → Memory → Memory
engine t m = copy_rows t.reps 0 t m

abbrev setup : Setup
setup = record { src = 3; dst = 4; src_stride = 5; dst_stride = 6; reps = 7 }

image-Stacks : Stacks image three_cores 2
unfolding cls_base_addr
image-Stacks = record { aligned = refl; room = omega arith }

tls-Room : Tls.Room image three_cores (thread_ptr image three_cores 2)
unfolding thread_ptr
tls-Room = record {
  some_core = omega arith;
  tdata = (omega arith, omega arith);
  tbss = (omega arith, omega arith);
  fits = omega arith;
  top = omega arith;
  zero_top = omega arith;
  image_apart = inr (omega arith);
  zero_apart = inr (omega arith);
}

init_tls_reaches_example :
    let m =
      run_issued engine setup
        (init_tls image three_cores 0 2 (thread_ptr image three_cores 2))
        bytes in
    (m (thread_ptr image three_cores 0 + 9)
      ≡ (if ltb 9 (Tls.tdata_size image) then bytes (0x80001000 + 9) else 0))
    × (m 5 ≡ bytes 5)
unfolding is_dm_core thread_ptr
init_tls_reaches_example =
    init_tls_reaches image three_cores engine setup 0 2 0 9 5 bytes (λ t m x. refl) refl refl refl
      (omega arith) image-Stacks tls-Room (omega arith) (λ z h. ground arith) (inl (omega arith))

cls_ptr_race_example :
    let spot = thread_ptr image three_cores 2 + 1 * Tls.stack image + (4 + Tls.tdata_size image) in
    let value = (init_cls image three_cores 0 1).0 in
    let start : System = record {
      pending = started_all setup (init_tls image three_cores 0 2 (thread_ptr image three_cores 2));
      memory = bytes;
      stored = false;
    } in
    Ends engine spot value start value × Ends engine spot value start 0
unfolding is_dm_core
cls_ptr_race_example =
    cls_ptr_race image three_cores (thread_ptr image three_cores 2) tls-Room engine setup 0 2 1 1 4
      bytes (λ t m x. refl) refl (omega arith) (omega arith) (λ z h. ground arith)

exit_code_sum_example :
    (exit_default three_cores 0 (all_to_all_reduction 0 (0 ∷ 2147483648 ∷ 0 ∷ [])) ≡ some 1)
    × ((exit_default three_cores 0 (all_to_all_reduction 0 (0 ∷ 2147483648 ∷ 0 ∷ [])) ≡ some 1)
        ↔ (2147483648 % 2 ^ 31 ≡ 0))
unfolding global_core_idx sum
exit_code_sum_example = exit_code_sum three_cores 0 (0 ∷ 2147483648 ∷ 0 ∷ []) refl
