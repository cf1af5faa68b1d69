-- ===== src/Kernels/Maxpool/Result.antt =====
-- What `maxpool_layer` leaves in the output, and that its sides never wait for each other in vain
-- (sw/dnn/maxpool/src/maxpool.h).
use snax_rebase.Base.{
  ℕ, ◌+◌, ◌-◌, ◌*◌, ◌/◌, ◌≤◌, ◌<◌, ◌≡◌, ◌⊎◌, inl, inr, refl, ap, Bool-cases, dec_lt, arith,
}
use snax_rebase.Kernels.Float.{Float}
use snax_rebase.Kernels.Maxpool.{
  Layer, Stage, loading, arrived, released, finished, System, Step, load_next, leave_loop, barrier,
  store_last, work, store_end, Reach, start, later, rounds, this_round, channel_rounds, Previous,
  init,
}
use snax_rebase.Kernels.Maxpool.Buffers.{Shape}
use snax_rebase.Kernels.Maxpool.Inv.{Inv, flag, released_yet, stored}
use snax_rebase.Kernels.Maxpool.Inv.Keep.{keep_load, keep_leave, keep_barrier}
use snax_rebase.Kernels.Maxpool.Inv.Outputs.{keep_store, keep_end, keep_work}
use snax_rebase.Kernels.Maxpool.Places.{pooled}
use snax_rebase.Kernels.Maxpool.Transfers.{out_start}

factor_pos : (p q : ℕ) → 0 < p * q → 0 < q
factor_pos p q h = grind arith

stage_cases : (x : Stage) → (x ≡ loading) ⊎ (x ≡ arrived) ⊎ (x ≡ released) ⊎ (x ≡ finished)
stage_cases loading = inl refl
stage_cases arrived = inr (inl refl)
stage_cases released = inr (inr (inl refl))
stage_cases finished = inr (inr (inr refl))

abbrev pub weight : Stage → ℕ
weight loading = 0
weight arrived = 1
weight released = 2
weight finished = 3

weight_le : (x : Stage) → weight x ≤ 3
weight_le loading = omega arith
weight_le arrived = omega arith
weight_le released = omega arith
weight_le finished = omega arith

-- How many steps lie behind a state
abbrev pub behind : {A : Type 0} → System A → ℕ
behind s = 3 * s.dm_round + weight s.stage + s.core_round

behind-step :
    {A : Type 0} {f : Float A} {l : Layer} {input : ℕ → A} (s t : System A)
    → Step f l input s t
    → behind t ≡ behind s + 1
behind-step s _ (load_next at lt) = let e : weight s.stage ≡ 0 = ap weight at in omega (arith, e)
behind-step s _ (leave_loop at all) = let e : weight s.stage ≡ 0 = ap weight at in omega (arith, e)
behind-step s _ (barrier at idle) = let e : weight s.stage ≡ 1 = ap weight at in omega (arith, e)
behind-step s _ (store_last at lt) = let e : weight s.stage ≡ 2 = ap weight at in omega (arith, e)
behind-step s _ (work runs lt) = omega arith
behind-step s _ (store_end at all) = let e : weight s.stage ≡ 2 = ap weight at in omega (arith, e)

module _ {A : Type 0} (f : Float A) (l : Layer) (shape : Shape l) (input : ℕ → A)
    (busy : 0 < rounds l) where
  some : 0 < channel_rounds l
  some =
      factor_pos ((l.output_height * l.output_width - l.cluster + l.clusters - 1) / l.clusters)
        (channel_rounds l) busy

  keep : (s t : System A) → Inv f l shape input s → Step f l input s t → Inv f l shape input t
  keep s _ inv (load_next at lt) = keep_load f l shape input s inv at lt
  keep s _ inv (leave_loop at all) = keep_leave f l shape input s inv at all
  keep s _ inv (barrier at idle) = keep_barrier f l shape input s inv at idle
  keep s _ inv (store_last at lt) = keep_store f l shape input some s inv at lt
  keep s _ inv (work runs lt) = keep_work f l shape input some s inv runs lt
  keep s _ inv (store_end at all) = keep_end f l shape input some s inv busy at all

  module _ (ifmap ofmap : ℕ → A) (last : Previous) (output : ℕ → A) where
    abbrev begin : System A
    begin = init ifmap ofmap last output

    begin-Inv : Inv f l shape input begin
    begin-Inv = record {
      dm_buffers = (refl, refl);
      core_buffers = (refl, refl);
      dm_bound = omega arith;
      core_bound = omega arith;
      ended = λ e. cc;
      in_step = refl;
      remembered = λ pos. absurd (omega arith);
      dm_loaded = λ e _. cc;
      core_loaded = λ e _. cc;
      made = λ k hk. absurd (omega arith);
      done = λ k hk. absurd (omega arith);
    }

    reach-Inv : (s : System A) → Reach f l input begin s → Inv f l shape input s
    reach-Inv s start = begin-Inv
    reach-Inv s (later {t} sofar step) = keep t s (reach-Inv t sofar) step

    -- In the first cluster, in whatever order the steps of the data mover core and the compute cores
    -- come between their barriers, when the data mover core has ended, every channel of every tile of
    -- the cluster holds the largest value under the filter in the input, as the comparison finds it.
    -- There is at least one tile, the tiles divide the channels, and the compute cores divide a tile's
    -- channels.
    pub maxpool_pools :
        (s : System A) (k c : ℕ)
        → Reach f l input begin s
        → s.stage ≡ finished
        → k < rounds l
        → c < l.tile_ci
        → s.output (out_start l (this_round l k) + c) ≡ pooled f l shape input k c
    maxpool_pools s k c reach at hk hc =
        let inv = reach-Inv s reach in
        let all = ap (λ x. stored x s.dm_round) at in
        inv.done k (omega (arith, all, inv.ended at, hk)) c hc

    -- In the first cluster, where there is at least one tile, the tiles divide the channels, the compute
    -- cores divide a tile's channels and the filter is not empty: in every reachable state in which the
    -- data mover core has not ended, a step is possible.
    pub maxpool_progress :
        (s : System A)
        → Reach f l input begin s
        → (s.stage ≡ finished) ⊎ ((t : System A) × Step f l input s t)
    maxpool_progress s reach =
        let inv = reach-Inv s reach in
        elim (stage_cases s.stage) [
          | inl at ↦ elim (dec_lt s.dm_round (rounds l)) [
            | yes more ↦ inr (_, load_next at more)
            | no over ↦ inr (_, leave_loop at (omega (arith, over, inv.dm_bound)))
          ]
          | inr (inl at) ↦ elim (Bool-cases s.running) [
            | inl runs ↦
                let one : flag s.running ≡ 1 = ap flag runs in
                let held : released_yet s.stage ≡ 0 = ap released_yet at in
                inr (_, work runs (omega (arith, inv.in_step, one, held, inv.dm_bound)))
            | inr idle ↦ inr (_, barrier at idle)
          ]
          | inr (inr (inl at)) ↦ elim (dec_lt s.dm_round (rounds l)) [
            | yes more ↦ inr (_, store_last at more)
            | no over ↦ inr (_, store_end at (omega (arith, over, inv.dm_bound)))
          ]
          | inr (inr (inr at)) ↦ inl at
        ]

    -- In the first cluster, where there is at least one tile, the tiles divide the channels, the compute
    -- cores divide a tile's channels and the filter is not empty: every step from a reachable state adds
    -- 1 to the number of steps behind it, three for each round of the data mover core and one for each
    -- round of the compute cores, which never exceeds four times the number of rounds, plus 3. So every
    -- order of the steps ends.
    pub maxpool_ends :
        (s t : System A)
        → Reach f l input begin s
        → Step f l input s t
        → (behind t ≡ behind s + 1) × (behind t ≤ 4 * rounds l + 3)
    maxpool_ends s t reach step =
        let inv = keep s t (reach-Inv s reach) step in
        (behind-step s t step, omega (arith, inv.dm_bound, inv.core_bound, weight_le t.stage))
