-- ===== src/Kernels/Maxpool/Inv/Outputs.antt =====
-- The steps of `maxpool_layer` that produce or store outputs keep the invariant (sw/dnn/maxpool/src/maxpool.h).
use snax_rebase.Base.{
  ℕ, ◌+◌, ◌-◌, ◌*◌, ◌%◌, ◌≤◌, ◌<◌, ◌≡◌, ◌≢◌, ◌⊎◌, inl, inr, sym, ap, ◌∙◌, Bool, true, false, ◌==◌,
  if◌then◌else◌, ℕ_discrete, arith,
}
use snax_rebase.Kernels.Float.{Float}
use snax_rebase.Kernels.Maxpool.{
  Layer, Stage, loading, arrived, released, finished, System, rounds, this_round, channel_rounds,
  input_half, output_half, store, compute, maximum,
}
use snax_rebase.Kernels.Maxpool.Buffers.{Shape, compute_at, compute_off}
use snax_rebase.Kernels.Maxpool.Inv.{Inv, Done, stored, flag, released_yet}
use snax_rebase.Kernels.Maxpool.Places.{
  pooled, maximum-pooled, other_half, apart, out_start-slot, slot, slot_unique,
}
use snax_rebase.Kernels.Maxpool.Transfers.{out_start, store_at, store_off}

flag_le : (b : Bool) → flag b ≤ 1
flag_le true = omega arith
flag_le false = omega arith

stored_low : (x : Stage) (d : ℕ) → d - 1 ≤ stored x d
stored_low loading d = omega arith
stored_low arrived d = omega arith
stored_low released d = omega arith
stored_low finished d = omega arith

released_le : (x : Stage) → released_yet x ≤ 1
released_le loading = omega arith
released_le arrived = omega arith
released_le released = omega arith
released_le finished = omega arith

positive_test : (d k : ℕ) → k < d → (d == 0) ≡ false
positive_test d k h = ground arith

module _ {A : Type 0} (f : Float A) (l : Layer) (shape : Shape l) (input : ℕ → A)
    (some : 0 < channel_rounds l) where
  -- The outputs of two rounds have no element in common.
  places :
      (k k' c : ℕ)
      → k ≢ k'
      → c < l.tile_ci
      → (out_start l (this_round l k) + c < out_start l (this_round l k'))
        ⊎ (out_start l (this_round l k') + l.tile_ci ≤ out_start l (this_round l k) + c)
  places k k' c ne hc =
      elim (apart (slot l shape k) (slot l shape k') l.tile_ci c (slot_unique l shape k k' some ne)
        hc) [
          | inl below ↦ inl (omega (arith, out_start-slot l shape k, out_start-slot l shape k'))
          | inr above ↦ inr (omega (arith, out_start-slot l shape k, out_start-slot l shape k'))
        ]

  module _ (s : System A) (inv : Inv f l shape input s) where
    -- The output of the last round, which the data mover core stores
    store-Done :
        s.stage ≡ released
        → 0 < s.dm_round
        → (k : ℕ) → k < s.dm_round
        → Done f l shape input (store f l s.last s.dm_read s.ofmap s.output) k
    store-Done at pos k hk c hc =
        let out_now : released_yet s.stage ≡ 1 = ap released_yet at in
        let kept : stored s.stage s.dm_round ≡ s.dm_round - 1 = ap (λ x. stored x s.dm_round) at in
        elim (ℕ_discrete k (s.dm_round - 1)) [
          | yes e ↦
              ap (λ p. store f l p s.dm_read s.ofmap s.output (out_start l (this_round l k) + c))
                (inv.remembered pos ∙ ap (this_round l) (sym e))
              ∙ store_at f l (this_round l k) s.dm_read c s.ofmap s.output hc
              ∙ ap (λ (b : ℕ). s.ofmap (b * output_half l + c))
                  (omega (arith, inv.dm_buffers, e, pos))
              ∙ inv.made k (omega (arith, inv.in_step, out_now, e, pos, flag_le s.running))
                  (omega (arith, kept, e)) c hc
          | no ne ↦
              ap (λ p. store f l p s.dm_read s.ofmap s.output (out_start l (this_round l k) + c))
                (inv.remembered pos)
              ∙ store_off f l (this_round l (s.dm_round - 1)) s.dm_read
                  (out_start l (this_round l k) + c) s.ofmap s.output
                  (places k (s.dm_round - 1) c ne hc)
              ∙ inv.done k (omega (arith, kept, hk)) c hc
        ]

    pub keep_store :
        s.stage ≡ released
        → s.dm_round < rounds l
        → Inv f l shape input (record s {
          stage = loading;
          output =
              if s.dm_round == 0 then s.output else store f l s.last s.dm_read s.ofmap s.output;
          dm_round = s.dm_round + 1;
          dm_write = 1 - s.dm_write;
          dm_read = 1 - s.dm_read;
          last = this_round l s.dm_round;
        })
    keep_store at lt =
        let out_now : released_yet s.stage ≡ 1 = ap released_yet at in
        let kept : stored s.stage s.dm_round ≡ s.dm_round - 1 = ap (λ x. stored x s.dm_round) at in
        record {
          dm_buffers = (omega (arith, inv.dm_buffers), omega (arith, inv.dm_buffers));
          core_buffers = inv.core_buffers;
          dm_bound = omega (arith, lt);
          core_bound = inv.core_bound;
          ended = λ e. cc;
          in_step = omega (arith, inv.in_step, out_now);
          remembered = λ _. ap (this_round l) (omega arith);
          dm_loaded = λ e _. cc;
          core_loaded = inv.core_loaded;
          made = λ k hk late. inv.made k hk (omega (arith, kept, late));
          done = λ k hk c hc.
              let below : k < s.dm_round = omega (arith, hk) in
              simp (positive_test s.dm_round k below)
                (store-Done at (omega (arith, below)) k below c hc);
        }

    pub keep_end :
        0 < rounds l
        → s.stage ≡ released
        → s.dm_round ≡ rounds l
        → Inv f l shape input
            (record s { stage = finished; output = store f l s.last s.dm_read s.ofmap s.output })
    keep_end busy at all =
        let out_now : released_yet s.stage ≡ 1 = ap released_yet at in
        let kept : stored s.stage s.dm_round ≡ s.dm_round - 1 = ap (λ x. stored x s.dm_round) at in
        record {
          dm_buffers = inv.dm_buffers;
          core_buffers = inv.core_buffers;
          dm_bound = inv.dm_bound;
          core_bound = inv.core_bound;
          ended = λ _. all;
          in_step = omega (arith, inv.in_step, out_now);
          remembered = inv.remembered;
          dm_loaded = λ e _. cc;
          core_loaded = inv.core_loaded;
          made = λ k hk late. inv.made k hk (omega (arith, kept, late));
          done = λ k hk. store-Done at (omega (arith, busy, all)) k hk;
        }

    pub keep_work :
        s.running ≡ true
        → s.core_round < rounds l
        → Inv f l shape input (record s {
          running = false;
          core_round = s.core_round + 1;
          core_write = 1 - s.core_write;
          core_read = 1 - s.core_read;
          ofmap = compute f l s.core_read s.core_write s.ifmap s.ofmap;
        })
    keep_work runs lt =
        let one : flag s.running ≡ 1 = ap flag runs in
        record {
          dm_buffers = inv.dm_buffers;
          core_buffers = (omega (arith, inv.core_buffers), omega (arith, inv.core_buffers));
          dm_bound = inv.dm_bound;
          core_bound = omega (arith, lt);
          ended = inv.ended;
          in_step = omega (arith, inv.in_step, one);
          remembered = inv.remembered;
          dm_loaded = inv.dm_loaded;
          core_loaded = λ e _. cc;
          made = λ k hk late c hc. elim (ℕ_discrete k s.core_round) [
            | yes e ↦
                ap
                  (λ (b : ℕ).
                    compute f l s.core_read s.core_write s.ifmap s.ofmap (b * output_half l + c))
                  (omega (arith, inv.core_buffers, e))
                ∙ compute_at f l shape s.core_read s.core_write c s.ifmap s.ofmap hc
                ∙ ap (λ (r : ℕ). maximum f l s.ifmap (r * input_half l) c) inv.core_buffers.1
                ∙ maximum-pooled f l shape input s.ifmap (s.core_round % 2) s.core_round c
                    (inv.core_loaded runs lt) hc
                ∙ ap (λ (q : ℕ). pooled f l shape input q c) (sym e)
            | no ne ↦
                let before : k + 1 ≡ s.core_round = omega (
                  arith,
                  hk,
                  ne,
                  late,
                  inv.in_step,
                  one,
                  stored_low s.stage s.dm_round,
                  released_le s.stage,
                ) in
                compute_off f l shape s.core_read s.core_write (k % 2 * output_half l + c) s.ifmap
                  s.ofmap
                  (other_half s.core_write (k % 2) (output_half l) c
                    (omega (arith, before, inv.core_buffers)) hc)
                ∙ inv.made k (omega (arith, before)) late c hc
          ];
          done = inv.done;
        }
