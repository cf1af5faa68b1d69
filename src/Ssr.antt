-- ===== src/Ssr.antt =====
-- sw/snRuntime/src/ssr.h: the configuration of a stream's data mover. A function changes the
-- registers of the data mover that its argument `dm` names.
pub mod Stream
use snax_rebase.Base.{ℕ, ◌+◌, ◌-◌, ◌*◌, ◌%◌, ◌^◌, ◌==◌, if◌then◌else◌}
use snax_rebase.Base.Memory.{update}
use snax_rebase.Base.Words.{u32, add_u32, sub_u32, mul_u32}

abbrev pub reg_repeat : ℕ
reg_repeat = 1

abbrev pub reg_bounds : ℕ
reg_bounds = 2

abbrev pub reg_strides : ℕ
reg_strides = 6

abbrev pub reg_rptr : ℕ
reg_rptr = 24

abbrev pub reg_wptr : ℕ
reg_wptr = 28

-- The registers of one data mover
abbrev pub SsrConfig : Type 0
SsrConfig = ℕ → ℕ

abbrev pub write_ssr_cfg : ℕ → ℕ → SsrConfig → SsrConfig
write_ssr_cfg reg value cfg = update cfg reg value

-- `a` after a loop with the decremented bound `b` and the stride `s`
abbrev pub reach : ℕ → ℕ → ℕ → ℕ
reach a b s = add_u32 a (mul_u32 s b)

unfoldable pub ssr_loop_1d : ℕ → ℕ → SsrConfig → SsrConfig
ssr_loop_1d b0 s0 cfg =
    let b0 = sub_u32 b0 1 in
    write_ssr_cfg (reg_strides + 0) (sub_u32 s0 0) (write_ssr_cfg (reg_bounds + 0) b0 cfg)

unfoldable pub ssr_loop_2d : ℕ → ℕ → ℕ → ℕ → SsrConfig → SsrConfig
ssr_loop_2d b0 b1 s0 s1 cfg =
    let b0 = sub_u32 b0 1 in
    let b1 = sub_u32 b1 1 in
    let cfg = write_ssr_cfg (reg_bounds + 0) b0 cfg in
    let cfg = write_ssr_cfg (reg_bounds + 1) b1 cfg in
    let cfg = write_ssr_cfg (reg_strides + 0) (sub_u32 s0 0) cfg in
    let a = reach 0 b0 s0 in write_ssr_cfg (reg_strides + 1) (sub_u32 s1 a) cfg

unfoldable pub ssr_loop_3d : ℕ → ℕ → ℕ → ℕ → ℕ → ℕ → SsrConfig → SsrConfig
ssr_loop_3d b0 b1 b2 s0 s1 s2 cfg =
    let b0 = sub_u32 b0 1 in
    let b1 = sub_u32 b1 1 in
    let b2 = sub_u32 b2 1 in
    let cfg = write_ssr_cfg (reg_bounds + 0) b0 cfg in
    let cfg = write_ssr_cfg (reg_bounds + 1) b1 cfg in
    let cfg = write_ssr_cfg (reg_bounds + 2) b2 cfg in
    let cfg = write_ssr_cfg (reg_strides + 0) (sub_u32 s0 0) cfg in
    let a = reach 0 b0 s0 in
    let cfg = write_ssr_cfg (reg_strides + 1) (sub_u32 s1 a) cfg in
    let a = reach a b1 s1 in write_ssr_cfg (reg_strides + 2) (sub_u32 s2 a) cfg

unfoldable pub ssr_loop_4d : ℕ → ℕ → ℕ → ℕ → ℕ → ℕ → ℕ → ℕ → SsrConfig → SsrConfig
ssr_loop_4d b0 b1 b2 b3 s0 s1 s2 s3 cfg =
    let b0 = sub_u32 b0 1 in
    let b1 = sub_u32 b1 1 in
    let b2 = sub_u32 b2 1 in
    let b3 = sub_u32 b3 1 in
    let cfg = write_ssr_cfg (reg_bounds + 0) b0 cfg in
    let cfg = write_ssr_cfg (reg_bounds + 1) b1 cfg in
    let cfg = write_ssr_cfg (reg_bounds + 2) b2 cfg in
    let cfg = write_ssr_cfg (reg_bounds + 3) b3 cfg in
    let cfg = write_ssr_cfg (reg_strides + 0) (sub_u32 s0 0) cfg in
    let a = reach 0 b0 s0 in
    let cfg = write_ssr_cfg (reg_strides + 1) (sub_u32 s1 a) cfg in
    let a = reach a b1 s1 in
    let cfg = write_ssr_cfg (reg_strides + 2) (sub_u32 s2 a) cfg in
    let a = reach a b2 s2 in write_ssr_cfg (reg_strides + 3) (sub_u32 s3 a) cfg

unfoldable pub ssr_repeat : ℕ → SsrConfig → SsrConfig
ssr_repeat count cfg = write_ssr_cfg reg_repeat (sub_u32 count 1) cfg

unfoldable pub ssr_read : ℕ → ℕ → SsrConfig → SsrConfig
ssr_read dim ptr cfg = write_ssr_cfg (reg_rptr + dim) ptr cfg

unfoldable pub ssr_write : ℕ → ℕ → SsrConfig → SsrConfig
ssr_write dim ptr cfg = write_ssr_cfg (reg_wptr + dim) ptr cfg
