-- ===== src/DataMover/Fifo.antt =====
-- Calls and rounds of the data mover one after another (sw/snRuntime/src/dm.h): nothing is lost,
-- doubled or reordered.
use snax_rebase.Base.{
  ℕ, zero, suc, ◌≡◌, ◌∙◌, sym, ap, Bool, true, false, none, some, List, [], ◌∷◌, ◌++◌, append_assoc,
  append-nil, if◌then◌else◌, Bool-cases, inl, inr, ltb→lt,
}
use snax_rebase.DataMover.{
  DataMover, Task, Started, start_of, has_room, insert, fill_1d, fill_2d, memcpy_async,
  memcpy2d_async, main_round,
}
use snax_rebase.DataMover.Queue.{IsValid, contents, listed, insert_appends, round_cases}

-- What the cores do with the data mover, in the order in which they do it. The flag of a round says
-- whether the engine is busy.
pub data Op : Type 0 where
  copy : (dest src n : ℕ) → Op
  copy_2d : (src dst size sstrd dstrd nreps cfg : ℕ) → Op
  round : (busy : Bool) → Op

-- The tasks taken into the queue, the transfers started, and the last state.
pub record Log : Type 0 where
  pub accepted : List Started
  pub started : List Started
  pub final : DataMover

-- What one of them does, where the flag `left` says that `dm_main` has left its loop, in which case
-- there are no more rounds: the tasks taken, those started, and the state and the flag after it. A
-- call that finds the queue full leaves it as it is.
abbrev pub step : Op → Bool → DataMover → List Started × List Started × DataMover × Bool
step (copy dest src n) left d = elim (memcpy_async dest src n d) [
  | none ↦ ([], [], d, left)
  | some d' ↦ (start_of (fill_1d dest src n (d.queue d.queue_front)) ∷ [], [], d', left)
]
step (copy_2d src dst size sstrd dstrd nreps cfg) left d =
    elim (memcpy2d_async src dst size sstrd dstrd nreps cfg d) [
      | none ↦ ([], [], d, left)
      | some d' ↦ (
        start_of (fill_2d src dst size sstrd dstrd nreps cfg (d.queue d.queue_front)) ∷ [],
        [],
        d',
        left,
      )
    ]
step (round busy) true d = ([], [], d, true)
step (round busy) false d = let r = main_round busy d in ([], listed r.started, r.state, r.do_exit)

unfoldable pub run_from : Bool → List Op → DataMover → Log
run_from left [] d = record { accepted = []; started = []; final = d }
run_from left (o ∷ os) d =
    let (taken, begun, d', left') = step o left d in
    let rest = run_from left' os d' in
    record {
      accepted = taken ++ rest.accepted;
      started = begun ++ rest.started;
      final = rest.final;
    }

-- From the start of `dm_main`
unfoldable pub run : List Op → DataMover → Log
unfolding run_from
run os d = run_from false os d

abbrev Balanced : DataMover → List Started × List Started × DataMover × Bool → Type 0
Balanced d (taken, begun, d', left) = IsValid d' × (contents d ++ taken ≡ begun ++ contents d')

copy-Balanced :
    (fill_in : Task → Task) (left : Bool) (d : DataMover)
    → IsValid d
    → Balanced d (elim (if has_room d then some (insert fill_in d) else none) [
      | none ↦ ([], [], d, left)
      | some d' ↦ (start_of (fill_in (d.queue d.queue_front)) ∷ [], [], d', left)
    ])
copy-Balanced fill_in left d v = elim (Bool-cases (has_room d)) [
  | inl e ↦ let kept = insert_appends fill_in d v (ltb→lt _ _ e) in rw e (kept.0, sym kept.1)
  | inr e ↦ rw e (v, append-nil (contents d))
]

step-Balanced : (o : Op) (left : Bool) (d : DataMover) → IsValid d → Balanced d (step o left d)
unfolding memcpy_async memcpy2d_async
step-Balanced (copy dest src n) left d v = copy-Balanced (fill_1d dest src n) left d v
step-Balanced (copy_2d src dst size sstrd dstrd nreps cfg) left d v =
    copy-Balanced (fill_2d src dst size sstrd dstrd nreps cfg) left d v
step-Balanced (round busy) true d v = (v, append-nil (contents d))
step-Balanced (round busy) false d v =
    let kept = round_cases busy d v in (kept.0, append-nil (contents d) ∙ kept.1)

run_from_fifo :
    (left : Bool) (os : List Op) (d : DataMover)
    → IsValid d
    → IsValid (run_from left os d).final
      × (contents d ++ (run_from left os d).accepted
          ≡ (run_from left os d).started ++ contents (run_from left os d).final)
unfolding run_from
run_from_fifo left [] d v = (v, append-nil (contents d))
run_from_fifo left (o ∷ os) d v =
    let after = step o left d in
    let first = step-Balanced o left d v in
    let rest = run_from_fifo after.3 os after.2 first.0 in
    let log = run_from after.3 os after.2 in
    (
      rest.0,
      sym (append_assoc (contents d) after.0 log.accepted)
          ∙ ap (λ xs. xs ++ log.accepted) first.1
          ∙ append_assoc after.1 (contents after.2) log.accepted
          ∙ ap (λ xs. after.1 ++ xs) rest.1
          ∙ sym (append_assoc after.1 log.started (contents log.final)),
    )

-- From a valid queue, over any sequence of copy calls and rounds, the tasks that were queued at the
-- start followed by those accepted are, in this order, the transfers started followed by the tasks
-- still queued.
pub run_fifo :
    (os : List Op) (d : DataMover)
    → IsValid d
    → IsValid (run os d).final
      × (contents d ++ (run os d).accepted ≡ (run os d).started ++ contents (run os d).final)
unfolding run
run_fifo os d v = run_from_fifo false os d v

-- `n` rounds with an engine whose answers do not matter.
abbrev pub rounds : ℕ → List Op
rounds zero = []
rounds (suc n) = round true ∷ rounds n
