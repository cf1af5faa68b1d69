-- ===== src/Omp/Schedule.antt =====
-- `__kmpc_for_static_init_4` and `_4u` of sw/snRuntime/src/omp/kmp.c: which iterations of a
-- statically scheduled loop a thread executes.
pub mod Share
pub mod Quota
pub mod Partition
pub mod Strided
use snax_rebase.Base.{
  ℕ, ◌+◌, ◌-◌, ◌*◌, ◌/◌, ◌%◌, ◌^◌, Bool, ◌&&◌, Option, none, some, ◌==◌, if◌then◌else◌,
}
use snax_rebase.Base.Words.{
  u32, add_u32, sub_u32, mul_u32, lt_i32, le_i32, div_i32, mod_i32, div_u32,
}

-- The two schedules that the function handles; it leaves any other alone.
pub data SchedType : Type 0 where
  static_chunked : SchedType
  static_plain : SchedType
  other_schedule : ℕ → SchedType

-- What the function reads and writes through its pointers. `plastiter` may be null.
pub record Bounds : Type 0 where
  pub lower : ℕ
  pub upper : ℕ
  pub stride : ℕ
  pub last_iter : Option ℕ

abbrev pub flag : Bool → ℕ
flag b = if b then 1 else 0

-- `nb_threads` is the team's `char`, which is unsigned on the target.
pub record Team : Type 0 where
  pub nb_threads : ℕ
  pub thread_num : ℕ

unfoldable pub loop_size : Bounds → ℕ → ℕ
loop_size b incr = add_u32 (div_i32 (sub_u32 b.upper b.lower) incr) 1

-- The locals of the branch for `kmp_sch_static`: `chunk` before and after its increment,
-- `leftOver`, and the bounds.
unfoldable pub plain_quota : Team → Bounds → ℕ → ℕ
plain_quota t b incr = div_u32 (loop_size b incr) t.nb_threads

unfoldable pub left_over : Team → Bounds → ℕ → ℕ
left_over t b incr = sub_u32 (loop_size b incr) (mul_u32 (plain_quota t b incr) t.nb_threads)

unfoldable pub takes_extra : Team → Bounds → ℕ → Bool
takes_extra t b incr = lt_i32 t.thread_num (left_over t b incr)

unfoldable pub plain_chunk : Team → Bounds → ℕ → ℕ
plain_chunk t b incr =
    if takes_extra t b incr then add_u32 (plain_quota t b incr) 1 else plain_quota t b incr

unfoldable pub plain_lower : Team → Bounds → ℕ → ℕ
plain_lower t b incr =
    let first = add_u32 b.lower (mul_u32 (mul_u32 t.thread_num (plain_chunk t b incr)) incr) in
    if takes_extra t b incr then first else add_u32 first (left_over t b incr)

unfoldable pub plain_upper : Team → Bounds → ℕ → ℕ
plain_upper t b incr =
    sub_u32 (add_u32 (plain_lower t b incr) (mul_u32 (plain_chunk t b incr) incr)) incr

-- The branch for `kmp_sch_static`.
unfoldable pub init_plain : Team → Bounds → ℕ → Bounds
init_plain t b incr =
    let lower = plain_lower t b incr in
    let upper = plain_upper t b incr in
    record {
      lower = lower;
      upper = upper;
      stride = loop_size b incr;
      last_iter = elim b.last_iter [
        | none ↦ none
        | some _ ↦ some (flag (upper == b.upper && le_i32 lower b.upper))
      ];
    }

-- The branch for `kmp_sch_static_chunked`, which writes through `plastiter` without a test: `none`
-- is a fault.
unfoldable pub init_chunked : Team → Bounds → ℕ → ℕ → Option Bounds
init_chunked t b incr chunk =
    let span = mul_u32 incr chunk in
    let stride = mul_u32 span t.nb_threads in
    let lower = add_u32 b.lower (mul_u32 span t.thread_num) in
    let upper = sub_u32 (add_u32 lower span) incr in
    let begin_last_chunk = sub_u32 b.upper (mod_i32 b.upper span) in
    elim b.last_iter [
      | none ↦ none
      | some _ ↦ some (record {
        lower = lower;
        upper = upper;
        stride = stride;
        last_iter = some (flag (mod_i32 (sub_u32 begin_last_chunk lower) stride == 0));
      })
    ]

unfoldable pub for_static_init_4 : Team → SchedType → Bounds → ℕ → ℕ → Option Bounds
for_static_init_4 t static_chunked b incr chunk = init_chunked t b incr chunk
for_static_init_4 t static_plain b incr chunk = some (init_plain t b incr)
for_static_init_4 t (other_schedule _) b incr chunk = some b

-- `_4u` copies its bounds to signed variables and back, which keeps the bit patterns.
unfoldable pub for_static_init_4u : Team → SchedType → Bounds → ℕ → ℕ → Option Bounds
for_static_init_4u t sched b incr chunk = for_static_init_4 t sched b incr chunk
