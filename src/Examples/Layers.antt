-- ===== src/Examples/Layers.antt =====
-- Layers at concrete sizes (sw/dnn/maxpool/src/maxpool.h, sw/apps/mnist/nnlinear_baseline.h).
use snax_rebase.Base.{
  ℕ, ◌+◌, ◌-◌, ◌*◌, ◌≡◌, ◌≤◌, ◌⊎◌, refl, true, false, not, ltb, ◌==◌, if◌then◌else◌, arith,
}
use snax_rebase.Kernels.Float.{Float}
use snax_rebase.Kernels.Maxpool.{
  Layer, Stage, System, Step, load_next, leave_loop, barrier, store_last, work, store_end, Reach,
  start, later, rounds, this_round, init, load, store, compute,
}
use snax_rebase.Kernels.Maxpool.Buffers.{Shape}
use snax_rebase.Kernels.Maxpool.Places.{pooled}
use snax_rebase.Kernels.Maxpool.Result.{behind, maxpool_pools, maxpool_progress, maxpool_ends}
use snax_rebase.Kernels.Maxpool.Transfers.{out_start}
use snax_rebase.Kernels.Mnist.{Gradients, gradient_update}
use snax_rebase.Kernels.Mnist.Backward.{gradient_update_entries}
use snax_rebase.Kernels.Mnist.Forward.{probability, score}

abbrev natural : Float ℕ
natural = record {
  zero = 0;
  add = λ a b. a + b;
  sub = λ a b. a - b;
  mul = λ a b. a * b;
  div = λ a b. a;
  sqrt = λ a. a;
  exp = λ a. a;
  neg_infinity = 0;
  of_nat = λ a. a;
  is_greater = λ a b. ltb b a;
  is_nonzero = λ a. not (a == 0);
}

abbrev pool : Layer
pool = record {
  channels = 4;
  input_width = 4;
  output_height = 1;
  output_width = 2;
  filter_height = 2;
  filter_width = 2;
  tile_ci = 2;
  clusters = 2;
  cluster = 0;
  core_num = 3;
  compute_num = 2;
}

pool-Shape : Shape pool
pool-Shape = record {
  first = refl;
  some_clusters = omega arith;
  some_cores = omega arith;
  shared = refl;
  tiled = refl;
  some_channels = omega arith;
  some_rows = omega arith;
  some_columns = omega arith;
}

abbrev pixels : ℕ → ℕ
pixels i = i * i

abbrev old : ℕ → ℕ
old i = 0

abbrev begun : System ℕ
begun = init old old (record { oh = 0; ow = 0; ci = 0 }) old

abbrev after_1 : System ℕ
after_1 = record begun {
  stage = Stage.arrived;
  ifmap = load natural pool pixels begun.dm_write begun.dm_round begun.ifmap;
}

abbrev after_2 : System ℕ
after_2 = record after_1 { stage = Stage.released; running = true }

abbrev after_3 : System ℕ
after_3 = record after_2 {
  running = false;
  core_round = after_2.core_round + 1;
  core_write = 1 - after_2.core_write;
  core_read = 1 - after_2.core_read;
  ofmap = compute natural pool after_2.core_read after_2.core_write after_2.ifmap after_2.ofmap;
}

abbrev after_4 : System ℕ
after_4 = record after_3 {
  stage = Stage.loading;
  output =
      if after_3.dm_round == 0
      then after_3.output
      else store natural pool after_3.last after_3.dm_read after_3.ofmap after_3.output;
  dm_round = after_3.dm_round + 1;
  dm_write = 1 - after_3.dm_write;
  dm_read = 1 - after_3.dm_read;
  last = this_round pool after_3.dm_round;
}

abbrev after_5 : System ℕ
after_5 = record after_4 {
  stage = Stage.arrived;
  ifmap = load natural pool pixels after_4.dm_write after_4.dm_round after_4.ifmap;
}

abbrev after_6 : System ℕ
after_6 = record after_5 { stage = Stage.released; running = true }

abbrev after_7 : System ℕ
after_7 = record after_6 {
  stage = Stage.loading;
  output =
      if after_6.dm_round == 0
      then after_6.output
      else store natural pool after_6.last after_6.dm_read after_6.ofmap after_6.output;
  dm_round = after_6.dm_round + 1;
  dm_write = 1 - after_6.dm_write;
  dm_read = 1 - after_6.dm_read;
  last = this_round pool after_6.dm_round;
}

abbrev after_8 : System ℕ
after_8 = record after_7 {
  running = false;
  core_round = after_7.core_round + 1;
  core_write = 1 - after_7.core_write;
  core_read = 1 - after_7.core_read;
  ofmap = compute natural pool after_7.core_read after_7.core_write after_7.ifmap after_7.ofmap;
}

abbrev after_9 : System ℕ
after_9 = record after_8 { stage = Stage.arrived }

abbrev after_10 : System ℕ
after_10 = record after_9 { stage = Stage.released; running = true }

abbrev after_11 : System ℕ
after_11 = record after_10 {
  stage = Stage.finished;
  output = store natural pool after_10.last after_10.dm_read after_10.ofmap after_10.output;
}

finished_run : Reach natural pool pixels begun after_11
finished_run =
    later
      (later
        (later
          (later
            (later
              (later
                (later
                  (later
                    (later (later (later start (load_next refl (omega arith))) (barrier refl refl))
                      (work refl (omega arith)))
                    (store_last refl (omega arith)))
                  (load_next refl (omega arith)))
                (barrier refl refl))
              (store_last refl (omega arith)))
            (work refl (omega arith)))
          (leave_loop refl refl))
        (barrier refl refl))
      (store_end refl refl)

maxpool_pools_example :
    after_11.output (out_start pool (this_round pool 1) + 1)
    ≡ pooled natural pool pool-Shape pixels 1 1
maxpool_pools_example =
    maxpool_pools natural pool pool-Shape pixels (omega arith) old old
      (record { oh = 0; ow = 0; ci = 0 }) old after_11 1 1 finished_run refl (omega arith)
      (omega arith)

maxpool_progress_example :
    (begun.stage ≡ Stage.finished) ⊎ ((t : System ℕ) × Step natural pool pixels begun t)
maxpool_progress_example =
    maxpool_progress natural pool pool-Shape pixels (omega arith) old old
      (record { oh = 0; ow = 0; ci = 0 }) old begun start

maxpool_ends_example : (behind after_1 ≡ behind begun + 1) × (behind after_1 ≤ 4 * rounds pool + 3)
maxpool_ends_example =
    maxpool_ends natural pool pool-Shape pixels (omega arith) old old
      (record { oh = 0; ow = 0; ci = 0 }) old begun after_1 start (load_next refl (omega arith))

abbrev no_gradients : Gradients ℕ
no_gradients = record { weights = old; biases = old }

gradient_update_entries_example :
    let after = gradient_update natural (λ a. a) 3 2 4 pixels pixels pixels 1 old no_gradients in
    let share =
      probability natural (λ a. a) 3 2 4 (score natural (λ a. a) 3 2 4 pixels pixels pixels) 3 in
    let difference = if 1 == 1 then share 1 - 1 else share 1 in
    (after.gradients.biases 1 ≡ 0 + difference)
    × (after.gradients.weights (1 * 2 + 1) ≡ 0 + difference * pixels 1)
    × (after.loss ≡ 0 - share 1)
gradient_update_entries_example =
    gradient_update_entries natural (λ a. a) 3 2 4 pixels pixels pixels old 1 1 1 no_gradients
      (omega arith) (omega arith) (omega arith)
