-- ===== src/DataMover.antt =====
-- sw/snRuntime/src/dm.h: the core that starts transfers on behalf of the others, its task queue and
-- its status requests.
pub mod Queue
pub mod Fifo
pub mod Status
pub mod Race
use snax_rebase.Base.{
  ℕ, ◌+◌, ◌-◌, ◌%◌, ◌^◌, Bool, true, false, ◌&&◌, not, Option, none, some, List, [], ◌∷◌, ◌==◌, ltb,
  leb, if◌then◌else◌,
}
use snax_rebase.Base.Memory.{update}
use snax_rebase.Base.Words.{u32, add_u32, sub_u32}

-- `DM_TASK_QUEUE_SIZE`
abbrev pub task_queue_size : ℕ
task_queue_size = 4

-- `dm_task_t`
pub record Task : Type 0 where
  pub src : ℕ
  pub dst : ℕ
  pub size : ℕ
  pub sstrd : ℕ
  pub dstrd : ℕ
  pub nreps : ℕ
  pub cfg : ℕ
  pub twod : ℕ

-- `en_stat_t`, with the value 0 for no request
pub data Stat : Type 0 where
  no_request wait_idle exit ready : Stat

-- `dm_t`. The queue's slots are given by their index; `pending` is the interrupt of the data mover
-- core.
pub record DataMover : Type 0 where
  pub queue : ℕ → Task
  pub queue_back : ℕ
  pub queue_front : ℕ
  pub queue_fill : ℕ
  pub mutex : ℕ
  pub stat_q : Stat
  pub stat_p : ℕ
  pub stat_pvalid : ℕ
  pub dm_wfi : ℕ
  pub pending : Bool

abbrev pub zero_task : Task
zero_task = record {
  src = 0;
  dst = 0;
  size = 0;
  sstrd = 0;
  dstrd = 0;
  nreps = 0;
  cfg = 0;
  twod = 0;
}

-- `dm_init` on the data mover core: everything is zero.
abbrev pub dm_init : DataMover
dm_init = record {
  queue = λ _. zero_task;
  queue_back = 0;
  queue_front = 0;
  queue_fill = 0;
  mutex = 0;
  stat_q = no_request;
  stat_p = 0;
  stat_pvalid = 0;
  dm_wfi = 0;
  pending = false;
}

-- A transfer that the core hands to the engine.
pub data Started : Type 0 where
  oned : (src dst size cfg : ℕ) → Started
  twod : (src dst size sstrd dstrd nreps cfg : ℕ) → Started

-- The choice of `dm_main` between `__builtin_sdma_start_twod` and `__builtin_sdma_start_oned`.
abbrev pub start_of : Task → Started
start_of t =
    if t.twod == 0
    then oned t.src t.dst t.size t.cfg
    else twod t.src t.dst t.size t.sstrd t.dstrd t.nreps t.cfg

-- The poll of the queue's size, which goes on as long as the queue is full.
abbrev pub has_room : DataMover → Bool
has_room d = ltb d.queue_fill task_queue_size

-- The slot at `queue_front` is filled in, and the queue is bumped.
unfoldable pub insert : (Task → Task) → DataMover → DataMover
insert fill_in d = record d {
  queue = update d.queue d.queue_front (fill_in (d.queue d.queue_front));
  queue_fill = add_u32 d.queue_fill 1;
  queue_front = add_u32 d.queue_front 1 % task_queue_size;
}

-- The fields that a one-dimensional copy leaves alone keep what the slot held before.
abbrev pub fill_1d : ℕ → ℕ → ℕ → Task → Task
fill_1d dest src n t = record t { src = src; dst = dest; size = u32 n; twod = 0; cfg = 0 }

abbrev pub fill_2d : ℕ → ℕ → ℕ → ℕ → ℕ → ℕ → ℕ → Task → Task
fill_2d src dst size sstrd dstrd nreps cfg t = record {
  src = src;
  dst = dst;
  size = size;
  sstrd = sstrd;
  dstrd = dstrd;
  nreps = nreps;
  cfg = cfg;
  twod = 1;
}

-- Both calls, by a core that no other interrupts: `none` while the poll goes on.
unfoldable pub memcpy_async : ℕ → ℕ → ℕ → DataMover → Option DataMover
memcpy_async dest src n d = if has_room d then some (insert (fill_1d dest src n) d) else none

unfoldable pub memcpy2d_async : ℕ → ℕ → ℕ → ℕ → ℕ → ℕ → ℕ → DataMover → Option DataMover
memcpy2d_async src dst size sstrd dstrd nreps cfg d =
    if has_room d then some (insert (fill_2d src dst size sstrd dstrd nreps cfg) d) else none

-- The first part of a round of `dm_main`: start the task at `queue_back`, if there is one. The
-- engine is polled until it takes a transfer.
unfoldable pub issue : DataMover → Option Started × DataMover
issue d = if d.queue_fill == 0 then (none, d) else (
  some (start_of (d.queue d.queue_back)),
  record d {
    queue_back = add_u32 d.queue_back 1 % task_queue_size;
    queue_fill = sub_u32 d.queue_fill 1;
  },
)

abbrev pub answer : DataMover → DataMover
answer d = record d { stat_pvalid = 1; stat_q = no_request }

-- The second part: `busy` is what the engine reports. The flag is `do_exit`.
unfoldable pub serve : Bool → DataMover → Bool × DataMover
serve busy d = elim d.stat_q [
  | no_request ↦ (false, d)
  | wait_idle ↦ (false, if busy then d else answer d)
  | exit ↦ (true, d)
  | ready ↦ (false, answer d)
]

abbrev pub is_no_request : Stat → Bool
is_no_request no_request = true
is_no_request wait_idle = false
is_no_request exit = false
is_no_request ready = false

-- What one round of `dm_main` does, up to the point where it may sleep.
pub record Round : Type 0 where
  pub started : Option Started
  pub do_exit : Bool
  pub sleeps : Bool
  pub state : DataMover

unfoldable pub main_round : Bool → DataMover → Round
main_round busy d =
    let (started, d1) = issue d in
    let (do_exit, d2) = serve busy d1 in
    record {
      started = started;
      do_exit = do_exit;
      sleeps = d2.queue_fill == 0 && is_no_request d2.stat_q;
      state = d2;
    }

-- `wfi_dm`: before the core sleeps, and after an interrupt has woken it.
unfoldable pub fall_asleep : DataMover → DataMover
fall_asleep d = record d { dm_wfi = add_u32 d.dm_wfi 1 }

unfoldable pub wake_up : DataMover → Option DataMover
wake_up d =
    if d.pending then some (record d { dm_wfi = sub_u32 d.dm_wfi 1; pending = false }) else none

-- `wake_dm` polls until the core has announced its sleep: `none` while it does.
unfoldable pub wake_dm : DataMover → Option DataMover
wake_dm d = if d.dm_wfi == 0 then none else some (record d { pending = true })

-- `dm_exit` and `dm_start`
unfoldable pub dm_exit : DataMover → Option DataMover
dm_exit d = wake_dm (record d { stat_q = exit })

unfoldable pub dm_start : DataMover → Option DataMover
dm_start d = wake_dm d

-- The request that `dm_wait` and `dm_wait_ready` make, inside the lock and before they wake the
-- core.
unfoldable pub request : Stat → DataMover → DataMover
request q d = record d { stat_pvalid = 0; stat_q = q }
