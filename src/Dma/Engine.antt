-- ===== src/Dma/Engine.antt =====
-- The data movement engine as docs/rm/custom_instructions.md describes it: what the instruction
-- words configure and start, and which bytes a transfer moves.
use snax_rebase.Base.{
  ℕ, zero, suc, ◌+◌, ◌-◌, ◌*◌, ◌/◌, ◌%◌, ◌^◌, List, [], ◌∷◌, Option, none, some, ltb, leb, ◌&&◌,
  ◌==◌, if◌then◌else◌,
}
use snax_rebase.Base.Memory.{Memory}
use snax_rebase.Dma.{Regs, Issue}

-- A transfer: the rows of `size` bytes, and the strides between them.
pub record Transfer : Type 0 where
  pub src : ℕ
  pub dst : ℕ
  pub size : ℕ
  pub src_stride : ℕ
  pub dst_stride : ℕ
  pub reps : ℕ

-- The parameters that earlier instructions have left.
pub record Setup : Type 0 where
  pub src : ℕ
  pub dst : ℕ
  pub src_stride : ℕ
  pub dst_stride : ℕ
  pub reps : ℕ

abbrev pub reg : Regs → ℕ → ℕ
reg r n =
    if n == 10
    then r.a0
    else if n == 11
    then r.a1
    else if n == 12
    then r.a2
    else if n == 13
    then r.a3
    else if n == 14
    then r.a4
    else if n == 15
    then r.a5
    else if n == 16
    then r.a6
    else if n == 17
    then r.a7
    else 0

-- DMSRC, DMDST, DMSTR, DMREP and DMCPYI, by `funct7`; bit 1 of DMCPYI's `config` enables the
-- second dimension.
abbrev pub execute : Regs → ℕ → Setup → Setup × List Transfer
execute r w s =
    let op = w / 2 ^ 25 in
    let rs2 = w / 2 ^ 20 % 32 in
    let rs1 = w / 2 ^ 15 % 32 in
    let wide = reg r rs2 * 2 ^ 32 + reg r rs1 in
    if op == 0
    then (record s { src = wide }, [])
    else if op == 1
    then (record s { dst = wide }, [])
    else if op == 6
    then (record s { src_stride = reg r rs1; dst_stride = reg r rs2 }, [])
    else if op == 7
    then (record s { reps = reg r rs1 }, [])
    else if op == 2
    then (
      s,
      (if rs2 / 2 % 2 == 1
            then record {
              src = s.src;
              dst = s.dst;
              size = reg r rs1;
              src_stride = s.src_stride;
              dst_stride = s.dst_stride;
              reps = s.reps;
            }
            else record {
              src = s.src;
              dst = s.dst;
              size = reg r rs1;
              src_stride = 0;
              dst_stride = 0;
              reps = 1;
            })
          ∷ [],
    )
    else (s, [])

abbrev pub execute_all : Regs → List ℕ → Setup → List Transfer
execute_all r [] s = []
execute_all r (w ∷ ws) s =
    let (s', started) = execute r w s in
    elim started [ [] ↦ execute_all r ws s' | t ∷ _ ↦ t ∷ execute_all r ws s' ]

-- The transfers that a call starts, from any earlier parameters.
abbrev pub started : Setup → Option Issue → List Transfer
started s none = []
started s (some i) = execute_all i.regs i.words s

-- Strides are sign-extended to 64 bits.
abbrev pub extend : ℕ → ℕ
extend w = if ltb w (2 ^ 31) then w else w + (2 ^ 64 - 2 ^ 32)

-- The address of byte `b` in row `r`.
abbrev pub src_byte : Transfer → ℕ → ℕ → ℕ
src_byte t r b = (t.src + r * extend t.src_stride + b) % 2 ^ 64

abbrev pub dst_byte : Transfer → ℕ → ℕ → ℕ
dst_byte t r b = (t.dst + r * extend t.dst_stride + b) % 2 ^ 64

-- One row is read whole and then written.
abbrev pub copy_row : Transfer → ℕ → Memory → Memory
copy_row t r m x =
    let from = dst_byte t r 0 in
    if leb from x && ltb x (from + t.size) then m (src_byte t r 0 + (x - from)) else m x

-- The rows from `r` on, `n` of them.
unfoldable pub copy_rows : ℕ → ℕ → Transfer → Memory → Memory
copy_rows zero r t m = m
copy_rows (suc n) r t m = copy_rows n (r + 1) t (copy_row t r m)

-- An engine that runs the transfers of a list one after the other
unfoldable pub run_all : (Transfer → Memory → Memory) → List Transfer → Memory → Memory
run_all run [] m = m
run_all run (t ∷ ts) m = run_all run ts (run t m)
