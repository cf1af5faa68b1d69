-- ===== src/DataMover/Race.antt =====
-- Two cores that queue a copy at the same time (sw/snRuntime/src/dm.h). The queue's size is polled
-- before the lock is taken.
use snax_rebase.Base.{ℕ, ◌%◌, ◌≡◌, ◌≢◌, refl, sym, ap, ◌∙◌, true, arith}
use snax_rebase.Base.Memory.{update, update_ne, update_self}
use snax_rebase.Base.Words.{add_u32}
use snax_rebase.DataMover.{DataMover, Task, has_room, insert}
use snax_rebase.DataMover.Queue.{IsValid}

-- Where a core stands in `dm_memcpy_async` or `dm_memcpy2d_async`.
pub data Pc : Type 0 where
  idle : Pc
  polled : Pc  -- the poll has seen room
  holding : Pc  -- the lock is taken

pub record System : Type 0 where
  pub mover : DataMover
  pub pc : ℕ → Pc

-- One step of core `i`. The writes to the slot and the bump are one step, since the lock is held.
pub data Step (s : System) : System → Type 0 where
  poll :
      (i : ℕ)
      → s.pc i ≡ idle
      → has_room s.mover ≡ true
      → Step s (record s { pc = update s.pc i polled })
  lock :
      (i : ℕ)
      → s.pc i ≡ polled
      → s.mover.mutex ≡ 0
      → Step s (record { mover = record (s.mover) { mutex = 1 }; pc = update s.pc i holding })
  put :
      (i : ℕ) (fill_in : Task → Task)
      → s.pc i ≡ holding
      → Step s (record {
        mover = record (insert fill_in s.mover) { mutex = 0 };
        pc = update s.pc i idle;
      })

pub data Steps (s : System) : System → Type 0 where
  here : Steps s s
  next : {t u : System} → Steps s t → Step t u → Steps s u

-- From a valid state in which one slot is free, two cores that both poll before either inserts
-- reach a state with five tasks counted in the four slots, where the oldest task's slot holds the
-- second core's task.
pub race_overruns :
    (s : System) (i j : ℕ) (first second : Task → Task)
    → IsValid s.mover
    → s.mover.queue_fill ≡ 3
    → s.mover.mutex ≡ 0
    → s.pc i ≡ idle
    → s.pc j ≡ idle
    → i ≢ j
    → (t : System) × Steps s t
      × (t.mover.queue_fill ≡ 5)
      × (t.mover.queue t.mover.queue_back ≡ second (s.mover.queue s.mover.queue_back))
unfolding insert
race_overruns s i j first second v three free hi hj ne =
    let room : has_room s.mover ≡ true = rw three refl in
    let s1 : System = record s { pc = update s.pc i polled } in
    let at_j : s1.pc j ≡ idle = update_ne s.pc i j polled ne ∙ hj in
    let s2 : System = record s1 { pc = update s1.pc j polled } in
    let at_i : s2.pc i ≡ polled =
      update_ne s1.pc j i polled (λ e. ne (sym e)) ∙ update_self s.pc i polled in
    let s3 : System = record {
      mover = record (s2.mover) { mutex = 1 };
      pc = update s2.pc i holding;
    } in
    let s4 : System = record {
      mover = record (insert first s3.mover) { mutex = 0 };
      pc = update s3.pc i idle;
    } in
    let at_j' : s4.pc j ≡ polled =
      update_ne s3.pc i j idle ne ∙ update_ne s2.pc i j holding ne ∙ update_self s1.pc j polled in
    let s5 : System = record {
      mover = record (s4.mover) { mutex = 1 };
      pc = update s4.pc j holding;
    } in
    let s6 : System = record {
      mover = record (insert second s5.mover) { mutex = 0 };
      pc = update s5.pc j idle;
    } in
    (
      s6,
      next
          (next
            (next (next (next (next here (poll i hi room)) (poll j at_j room)) (lock i at_i free))
              (put i first (update_self s2.pc i holding)))
            (lock j at_j' refl))
          (put j second (update_self s4.pc j holding)),
      five,
      slot,
    )
  where
    once : DataMover
    once = insert first s.mover

    five : (insert second once).queue_fill ≡ 5
    five = omega (arith, three)

    slot : (insert second once).queue s.mover.queue_back ≡ second (s.mover.queue s.mover.queue_back)
    slot =
        let e : add_u32 s.mover.queue_front 1 % 4 ≡ s.mover.queue_back =
          omega (arith, three, v.front_lem, v.back_in) in
        let apart : s.mover.queue_front ≢ s.mover.queue_back =
          omega (arith, three, v.front_lem, v.back_in) in
        let over =
          update s.mover.queue s.mover.queue_front (first (s.mover.queue s.mover.queue_front)) in
        ap (λ a. update over a (second (over a)) s.mover.queue_back) e
        ∙ update_self over s.mover.queue_back (second (over s.mover.queue_back))
        ∙ ap second (update_ne s.mover.queue s.mover.queue_front s.mover.queue_back _ apart)
