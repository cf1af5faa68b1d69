-- ===== src/DataMover/Queue.antt =====
-- The task queue of sw/snRuntime/src/dm.h is a bounded queue, first in, first out.
use snax_rebase.Base.{
  min, ℕ, zero, suc, ◌+◌, ◌-◌, ◌%◌, ◌≤◌, ◌<◌, ◌≡◌, ◌≢◌, refl, ◌∙◌, ap, ap₂, Bool, Option, none,
  some, List, [], ◌∷◌, ◌++◌, ◌==◌, arith, length, Bool-cases, inl, inr, ==_iff, sym,
}
use snax_rebase.Base.Memory.{update, update_self, update_ne}
use snax_rebase.Base.Words.{add_u32, sub_u32}
use snax_rebase.DataMover.{DataMover, Task, Started, start_of, insert, issue, serve, main_round}

pub record IsValid (d : DataMover) : Type 0 where
  pub back_in : d.queue_back < 4
  pub fill_in : d.queue_fill ≤ 4
  pub front_lem : d.queue_front ≡ (d.queue_back + d.queue_fill) % 4

-- The transfers of the `n` tasks from slot `i` on, going round at the end.
abbrev pub tasks_from : (ℕ → Task) → ℕ → ℕ → List Started
tasks_from q i zero = []
tasks_from q i (suc n) = start_of (q i) ∷ tasks_from q ((i + 1) % 4) n

abbrev pub contents : DataMover → List Started
contents d = tasks_from d.queue d.queue_back d.queue_fill

pub length-tasks_from : (q : ℕ → Task) (i n : ℕ) → length (tasks_from q i n) ≡ n
length-tasks_from q i zero = refl
length-tasks_from q i (suc n) = ap suc (length-tasks_from q ((i + 1) % 4) n)

-- Writing the slot just past the tasks adds one task at their end.
tasks_update :
    (q : ℕ → Task) (i n front : ℕ) (t : Task)
    → i < 4
    → n < 4
    → front ≡ (i + n) % 4
    → tasks_from (update q front t) i (suc n) ≡ tasks_from q i n ++ (start_of t ∷ [])
tasks_update q i zero front t hi hn e =
    let same : front ≡ i = omega (arith, e) in
    ap (λ x. start_of x ∷ []) (ap (λ a. update q a t i) same ∙ update_self q i t)
tasks_update q i (suc n) front t hi hn e =
    ap₂ (λ x xs. start_of x ∷ xs) (update_ne q front i t (omega (arith, e)))
      (tasks_update q ((i + 1) % 4) n front t (omega arith) (omega arith) (omega (arith, e)))

-- A task that is inserted where there is room joins a valid queue at its end, and the queue stays
-- valid.
pub insert_appends :
    (fill_in : Task → Task) (d : DataMover)
    → IsValid d
    → d.queue_fill < 4
    → IsValid (insert fill_in d)
      × (contents (insert fill_in d)
          ≡ contents d ++ (start_of (fill_in (d.queue d.queue_front)) ∷ []))
unfolding insert
insert_appends fill_in d v room =
    let bump : add_u32 d.queue_fill 1 ≡ suc d.queue_fill = omega arith in
    (
      record { back_in = v.back_in; fill_in = omega arith; front_lem = omega (arith, v.front_lem) },
      rw bump (
          tasks_update d.queue d.queue_back d.queue_fill d.queue_front
            (fill_in (d.queue d.queue_front)) v.back_in room v.front_lem),
    )

-- `dm_main` finds an empty queue, or starts the task at the back.
tasks_pop :
    (q : ℕ → Task) (i n : ℕ)
    → n ≢ 0
    → tasks_from q i n ≡ start_of (q i) ∷ tasks_from q ((i + 1) % 4) (n - 1)
tasks_pop q i zero h = absurd (h refl)
tasks_pop q i (suc n) h = let e : suc n - 1 ≡ n = omega arith in rw e refl

abbrev pub listed : Option Started → List Started
listed none = []
listed (some s) = s ∷ []

-- What `issue` does to a valid queue.
abbrev Popped : DataMover → Option Started × DataMover → Type 0
Popped d r =
    IsValid r.1
    × (contents d ≡ listed r.0 ++ contents r.1)
    × (d.queue_fill ≡ length (listed r.0) + r.1.queue_fill)
    × (r.0 ≡ none → d.queue_fill ≡ 0)

issue_pops : (d : DataMover) → IsValid d → Popped d (issue d)
unfolding issue
issue_pops d v = elim (Bool-cases (d.queue_fill == 0)) [
  | inl e ↦ rw e (v, refl, omega arith, λ _. (==_iff _ 0).0 e)
  | inr e ↦
      let some_tasks : d.queue_fill ≢ 0 = ground arith in
      let less : sub_u32 d.queue_fill 1 ≡ d.queue_fill - 1 = omega (arith, v.fill_in) in
      let next : add_u32 d.queue_back 1 % 4 ≡ (d.queue_back + 1) % 4 = omega (arith, v.back_in) in
      rw e (
        record {
          back_in = omega arith;
          fill_in = omega (arith, v.fill_in);
          front_lem = omega (arith, v.front_lem, v.fill_in, v.back_in);
        },
        rw (less, next) (tasks_pop d.queue d.queue_back d.queue_fill some_tasks),
        omega (arith, less),
        λ eq. cc,
      )
]

-- The answers to status requests leave the queue alone.
abbrev pub SameQueue : DataMover → DataMover → Type 0
SameQueue d e =
    (d.queue ≡ e.queue)
    × (d.queue_back ≡ e.queue_back)
    × (d.queue_front ≡ e.queue_front)
    × (d.queue_fill ≡ e.queue_fill)

serve-SameQueue : (busy : Bool) (d : DataMover) → SameQueue (serve busy d).1 d
unfolding serve
serve-SameQueue busy d = ground arith

SameQueue-Popped :
    (d : DataMover) (o : Option Started) (x y : DataMover)
    → SameQueue y x
    → Popped d (o, x)
    → Popped d (o, y)
SameQueue-Popped d o x y (eq, eb, ef, en) p = (
  record {
    back_in = omega (arith, eb, p.0);
    fill_in = omega (arith, en, p.0);
    front_lem = omega (arith, eb, ef, en, p.0);
  },
  p.1 ∙ ap (λ xs. listed o ++ xs) (sym (λ i. tasks_from (eq i) (eb i) (en i))),
  omega (arith, en, p.2),
  p.3,
)

pub round_cases :
    (busy : Bool) (d : DataMover)
    → IsValid d
    → let r = main_round busy d in
      IsValid r.state
      × (contents d ≡ listed r.started ++ contents r.state)
      × (d.queue_fill ≡ length (listed r.started) + r.state.queue_fill)
      × (r.started ≡ none → d.queue_fill ≡ 0)
unfolding main_round
round_cases busy d v =
    SameQueue-Popped d (issue d).0 (issue d).1 (serve busy (issue d).1).1
      (serve-SameQueue busy (issue d).1) (issue_pops d v)

started_count :
    (o : Option Started) (f g : ℕ)
    → f ≡ length (listed o) + g
    → (o ≡ none → f ≡ 0)
    → length (listed o) ≡ min 1 f
started_count none f g e h = omega (arith, h refl)
started_count (some t) f g e h = omega arith

-- On a valid queue a round of `dm_main` starts the oldest task, if there is one, and takes just it
-- off the queue, so that the fill falls by the number of tasks started; it starts none only if the
-- queue is empty. The queue stays valid.
pub round_pops :
    (busy : Bool) (d : DataMover)
    → IsValid d
    → let r = main_round busy d in
      IsValid r.state
      × (contents d ≡ listed r.started ++ contents r.state)
      × (d.queue_fill ≡ length (listed r.started) + r.state.queue_fill)
      × (length (listed r.started) ≡ min 1 d.queue_fill)
round_pops busy d v =
    let (valid, kept, fewer, idle) = round_cases busy d v in
    (valid, kept, fewer, started_count (main_round busy d).started d.queue_fill _ fewer idle)
