-- ===== src/Kernels/Maxpool/Inv/Keep.antt =====
-- Every step of `maxpool_layer` keeps the invariant (sw/dnn/maxpool/src/maxpool.h).
use snax_rebase.Base.{ℕ, ◌+◌, ◌-◌, ◌*◌, ◌%◌, ◌<◌, ◌≡◌, ap, ◌∙◌, subst, true, false, arith}
use snax_rebase.Kernels.Float.{Float}
use snax_rebase.Kernels.Maxpool.{
  Layer, loading, arrived, released, System, rounds, input_half, load,
}
use snax_rebase.Kernels.Maxpool.Buffers.{Shape, in_row}
use snax_rebase.Kernels.Maxpool.Inv.{Inv, stored, flag, released_yet}
use snax_rebase.Kernels.Maxpool.Places.{Holds, other_half}
use snax_rebase.Kernels.Maxpool.Transfers.{load_at, load_off}

module _ {A : Type 0} (f : Float A) (l : Layer) (shape : Shape l) (input : ℕ → A) where
  in_tile :
      (fh fw c : ℕ)
      → fh < l.filter_height
      → fw < l.filter_width
      → c < l.tile_ci
      → (fh * l.filter_width + fw) * l.tile_ci + c < input_half l
  in_tile fh fw c hh hw hc =
      in_row (fh * l.filter_width + fw) (l.filter_height * l.filter_width) l.tile_ci c
        (in_row fh l.filter_height l.filter_width fw hh hw) hc

  module _ (s : System A) (inv : Inv f l shape input s) where
    pub keep_load :
        s.stage ≡ loading
        → s.dm_round < rounds l
        → Inv f l shape input
            (record s { stage = arrived; ifmap = load f l input s.dm_write s.dm_round s.ifmap })
    keep_load at lt =
        let none_out : released_yet s.stage ≡ 0 = ap released_yet at in
        let kept : stored s.stage s.dm_round ≡ s.dm_round - 1 = ap (λ x. stored x s.dm_round) at in
        record {
          dm_buffers = inv.dm_buffers;
          core_buffers = inv.core_buffers;
          dm_bound = inv.dm_bound;
          core_bound = inv.core_bound;
          ended = λ e. cc;
          in_step = omega (arith, inv.in_step, none_out);
          remembered = inv.remembered;
          dm_loaded = λ _ _ fh fw c hh hw hc.
              ap
                (λ w.
                  load f l input w s.dm_round s.ifmap
                    (s.dm_round % 2 * input_half l + ((fh * l.filter_width + fw) * l.tile_ci + c)))
                inv.dm_buffers.0
              ∙ load_at f l shape input (s.dm_round % 2) s.dm_round fh fw c s.ifmap hh hw hc;
          core_loaded = λ runs early fh fw c hh hw hc.
              let one : flag s.running ≡ 1 = ap flag runs in
              load_off f l shape input s.dm_write s.dm_round _ s.ifmap (
                other_half s.dm_write (s.core_round % 2) (input_half l)
                  ((fh * l.filter_width + fw) * l.tile_ci + c)
                  (omega (arith, inv.in_step, none_out, one, inv.dm_buffers))
                  (in_tile fh fw c hh hw hc))
              ∙ inv.core_loaded runs early fh fw c hh hw hc;
          made = λ k hk late. inv.made k hk (omega (arith, kept, late));
          done = λ k hk. inv.done k (omega (arith, kept, hk));
        }

    pub keep_leave :
        s.stage ≡ loading
        → s.dm_round ≡ rounds l
        → Inv f l shape input (record s { stage = arrived })
    keep_leave at all =
        let none_out : released_yet s.stage ≡ 0 = ap released_yet at in
        let kept : stored s.stage s.dm_round ≡ s.dm_round - 1 = ap (λ x. stored x s.dm_round) at in
        record {
          dm_buffers = inv.dm_buffers;
          core_buffers = inv.core_buffers;
          dm_bound = inv.dm_bound;
          core_bound = inv.core_bound;
          ended = λ e. cc;
          in_step = omega (arith, inv.in_step, none_out);
          remembered = inv.remembered;
          dm_loaded = λ _ early. absurd (omega (arith, early, all));
          core_loaded = inv.core_loaded;
          made = λ k hk late. inv.made k hk (omega (arith, kept, late));
          done = λ k hk. inv.done k (omega (arith, kept, hk));
        }

    pub keep_barrier :
        s.stage ≡ arrived
        → s.running ≡ false
        → Inv f l shape input (record s { stage = released; running = true })
    keep_barrier at idle =
        let none_out : released_yet s.stage ≡ 0 = ap released_yet at in
        let none_run : flag s.running ≡ 0 = ap flag idle in
        let kept : stored s.stage s.dm_round ≡ s.dm_round - 1 = ap (λ x. stored x s.dm_round) at in
        let same : s.dm_round ≡ s.core_round = omega (arith, inv.in_step, none_out, none_run) in
        record {
          dm_buffers = inv.dm_buffers;
          core_buffers = inv.core_buffers;
          dm_bound = inv.dm_bound;
          core_bound = inv.core_bound;
          ended = λ e. cc;
          in_step = omega (arith, inv.in_step, none_out, none_run);
          remembered = inv.remembered;
          dm_loaded = λ e _. cc;
          core_loaded = λ _ early.
              subst (λ k. Holds f l shape input s.ifmap (k % 2) k) same
                (inv.dm_loaded at (omega (arith, early, same)));
          made = λ k hk late. inv.made k hk (omega (arith, kept, late));
          done = λ k hk. inv.done k (omega (arith, kept, hk));
        }
