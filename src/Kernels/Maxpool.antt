-- ===== src/Kernels/Maxpool.antt =====
-- `maxpool_layer` (sw/dnn/maxpool/src/maxpool.h) in one cluster: the data mover core loads the input of
-- the next tile and stores the output of the last one, while the compute cores work on a tile. Each
-- has two buffers for both. A pointer is a subscript; no subscript wraps around.
pub mod Buffers
pub mod Transfers
pub mod Places
pub mod Inv
pub mod Result
use snax_rebase.Base.{ℕ, ◌+◌, ◌-◌, ◌*◌, ◌/◌, ◌%◌, ◌<◌, ◌≡◌, Bool, true, false, ◌==◌, if◌then◌else◌}
use snax_rebase.Base.Loops.{loop}
use snax_rebase.Base.Memory.{update}
use snax_rebase.Kernels.Float.{Float}

-- `maxpool_layer_t` without the pointers, `CO`, `IH` and `dtype`, which the function does not read, and the
-- numbers of the cluster. `core_num` counts the data mover core too.
pub record Layer : Type 0 where
  pub channels : ℕ  -- `CI`
  pub input_width : ℕ  -- `IW`
  pub output_height : ℕ  -- `OH`
  pub output_width : ℕ  -- `OW`
  pub filter_height : ℕ  -- `FH`
  pub filter_width : ℕ  -- `FW`
  pub tile_ci : ℕ
  pub clusters : ℕ
  pub cluster : ℕ
  pub core_num : ℕ
  pub compute_num : ℕ

-- Half of `ifmap_size` and of `ofmap_size`
abbrev pub input_half : Layer → ℕ
input_half l = l.filter_height * l.filter_width * l.tile_ci

abbrev pub output_half : Layer → ℕ
output_half l = l.tile_ci

-- The rounds of the loop over `ci`, and of both loops together
abbrev pub channel_rounds : Layer → ℕ
channel_rounds l = (l.channels + l.tile_ci - 1) / l.tile_ci

abbrev pub rounds : Layer → ℕ
rounds l =
    (l.output_height * l.output_width - l.cluster + l.clusters - 1) / l.clusters * channel_rounds l

-- `tile` and `ci` in a round
abbrev pub tile : Layer → ℕ → ℕ
tile l k = l.cluster + k / channel_rounds l * l.clusters

abbrev pub ci : Layer → ℕ → ℕ
ci l k = k % channel_rounds l * l.tile_ci

-- What the data mover core remembers of the last round
pub record Previous : Type 0 where
  pub oh : ℕ
  pub ow : ℕ
  pub ci : ℕ

abbrev pub this_round : Layer → ℕ → Previous
this_round l k = record {
  oh = tile l k / l.output_width;
  ow = tile l k % l.output_width;
  ci = ci l k;
}

module _ {A : Type 0} (f : Float A) (l : Layer) where
  open l use {channels, input_width, output_width, filter_height, filter_width, tile_ci}

  -- `max` for the channel `c`, with the input tile at `p`
  unfoldable pub maximum : (ℕ → A) → ℕ → ℕ → A
  maximum ifmap p c =
      loop filter_height
        (λ fh. loop filter_width (λ fw m.
          let v = ifmap (p + ((fh * filter_width + fw) * tile_ci + c)) in
          if f.is_greater v m then v else m))
        (ifmap (p + c))

  unfoldable pub maxpool_fp64 : (ℕ → A) → ℕ → ℕ → (ℕ → A) → ℕ → A
  unfolding maximum
  maxpool_fp64 ifmap p q ofmap =
      loop ((tile_ci + l.compute_num - 1) / l.compute_num)
        (λ i o. update o (q + i * l.compute_num) (maximum ifmap p (i * l.compute_num))) ofmap

  -- All compute cores of the cluster. `compute_id` is the global number of a core.
  unfoldable pub compute : ℕ → ℕ → (ℕ → A) → (ℕ → A) → ℕ → A
  unfolding maxpool_fp64
  compute read_buf write_buf ifmap ofmap =
      loop l.compute_num
        (λ id.
          let compute_id = l.cluster * l.core_num + id in
          maxpool_fp64 ifmap (read_buf * input_half l + compute_id)
            (write_buf * output_half l + compute_id))
        ofmap

  -- The elements that the transfers of a round load
  unfoldable pub load : (ℕ → A) → ℕ → ℕ → (ℕ → A) → ℕ → A
  load input write_buf k ifmap =
      let this = this_round l k in
      loop filter_height
        (λ fh.
          let dst = write_buf * input_half l + fh * filter_width * tile_ci in
          let src =
            ((this.oh * filter_height + fh) * input_width + this.ow * filter_width) * channels in
          if tile_ci == channels
          then loop (tile_ci * filter_width) (λ x m. update m (dst + x) (input (src + x)))
          else loop filter_width (λ r. loop tile_ci (λ e m.
            update m (dst + (r * tile_ci + e)) (input (src + this.ci + (r * channels + e))))))
        ifmap

  -- The elements that the transfer of the last round's output stores
  unfoldable pub store : Previous → ℕ → (ℕ → A) → (ℕ → A) → ℕ → A
  store last read_buf ofmap output =
      loop tile_ci
        (λ e o.
          update o ((last.oh * output_width + last.ow) * channels + last.ci + e)
            (ofmap ((1 - read_buf) * output_half l + e)))
        output

-- Where the data mover core stands: before its loads, at the barrier, after it, or at the end.
pub data Stage : Type 0 where
  loading : Stage
  arrived : Stage
  released : Stage
  finished : Stage

-- `round` and the two flags of each side, the buffers, and the output in main memory. The compute cores
-- run, or wait at the barrier.
pub record System (A : Type 0) : Type 0 where
  pub stage : Stage
  pub dm_round : ℕ
  pub dm_write : ℕ
  pub dm_read : ℕ
  pub last : Previous
  pub running : Bool
  pub core_round : ℕ
  pub core_write : ℕ
  pub core_read : ℕ
  pub ifmap : ℕ → A
  pub ofmap : ℕ → A
  pub output : ℕ → A

-- The data mover core's steps between its waits, the barrier of all cores, and the compute cores' work of
-- a round.
pub data Step {A : Type 0} (f : Float A) (l : Layer) (input : ℕ → A) (s : System A)
    : System A → Type 0 where
  load_next :
      s.stage ≡ loading
      → s.dm_round < rounds l
      → Step f l input s
          (record s { stage = arrived; ifmap = load f l input s.dm_write s.dm_round s.ifmap })
  leave_loop :
      s.stage ≡ loading → s.dm_round ≡ rounds l → Step f l input s (record s { stage = arrived })
  barrier :
      s.stage ≡ arrived
      → s.running ≡ false
      → Step f l input s (record s { stage = released; running = true })
  store_last :
      s.stage ≡ released
      → s.dm_round < rounds l
      → Step f l input s (record s {
        stage = loading;
        output = if s.dm_round == 0 then s.output else store f l s.last s.dm_read s.ofmap s.output;
        dm_round = s.dm_round + 1;
        dm_write = 1 - s.dm_write;
        dm_read = 1 - s.dm_read;
        last = this_round l s.dm_round;
      })
  work :
      s.running ≡ true
      → s.core_round < rounds l
      → Step f l input s (record s {
        running = false;
        core_round = s.core_round + 1;
        core_write = 1 - s.core_write;
        core_read = 1 - s.core_read;
        ofmap = compute f l s.core_read s.core_write s.ifmap s.ofmap;
      })
  store_end :
      s.stage ≡ released
      → s.dm_round ≡ rounds l
      → Step f l input s
          (record s { stage = finished; output = store f l s.last s.dm_read s.ofmap s.output })

-- What the buffers and the variables of the last round hold before is not known.
abbrev pub init : {A : Type 0} → (ℕ → A) → (ℕ → A) → Previous → (ℕ → A) → System A
init ifmap ofmap last output = record {
  stage = loading;
  dm_round = 0;
  dm_write = 0;
  dm_read = 0;
  last = last;
  running = false;
  core_round = 0;
  core_write = 0;
  core_read = 0;
  ifmap = ifmap;
  ofmap = ofmap;
  output = output;
}

pub data Reach {A : Type 0} (f : Float A) (l : Layer) (input : ℕ → A) (s : System A)
    : System A → Type 0 where
  start : Reach f l input s s
  later : {t u : System A} → Reach f l input s t → Step f l input t u → Reach f l input s u
