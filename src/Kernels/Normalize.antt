-- ===== src/Kernels/Normalize.antt =====
-- `softmax_fp32` (sw/dnn/softmax/src/softmax.h) and `layernorm_fp32_naive`
-- (sw/dnn/layernorm/src/layernorm_fp32.h). The input and the output do not overlap.
pub mod Softmax
pub mod Layernorm
use snax_rebase.Base.{ℕ, ◌/◌, if◌then◌else◌}
use snax_rebase.Base.Loops.{loop}
use snax_rebase.Base.Memory.{update}
use snax_rebase.Kernels.Float.{Float}
use snax_rebase.Kernels.Rows.{cluster_rows}

-- The output and the running sum of a row of `softmax_fp32`
pub record Exps (A : Type 0) : Type 0 where
  pub values : ℕ → A
  pub sum : A

-- `p` gives the subscripts of the row, `width` its length: `input_samples`, `embeddings`.
module _ {A : Type 0} (f : Float A) (width : ℕ) (input : ℕ → A) where
  unfoldable pub row_max : (ℕ → ℕ) → A
  row_max p =
      loop width (λ i m. if f.is_greater (input (p i)) m then input (p i) else m) f.neg_infinity

  -- The loop that stores the exponentials and adds them up
  unfoldable pub shift_row : (ℕ → ℕ) → ℕ → (ℕ → A) → Exps A
  shift_row p count out =
      loop count
        (λ i s.
          let o = update s.values (p i) (f.exp (f.sub (input (p i)) (row_max p))) in
          record { values = o; sum = f.add s.sum (o (p i)) })
        (record { values = out; sum = f.zero })

  unfoldable pub softmax_row : (ℕ → ℕ) → (ℕ → A) → ℕ → A
  softmax_row p out =
      let s = shift_row p width out in
      loop width (λ i o. update o (p i) (f.div (o (p i)) s.sum)) s.values

  unfoldable pub mean : (ℕ → ℕ) → A
  mean p = f.div (loop width (λ i m. f.add m (input (p i))) f.zero) (f.of_nat width)

  -- `var` after its square root; `eps` is not negative.
  unfoldable pub spread : ℕ → (ℕ → ℕ) → A
  spread eps p =
      let m = mean p in
      let var =
        loop width (λ i v. f.add v (f.mul (f.sub (input (p i)) m) (f.sub (input (p i)) m)))
          f.zero in
      f.sqrt (f.add (f.div var (f.of_nat width)) (f.of_nat eps))

  unfoldable pub layernorm_row : ℕ → (ℕ → ℕ) → (ℕ → A) → ℕ → A
  layernorm_row eps p out =
      loop width (λ i o. update o (p i) (f.div (f.sub (input (p i)) (mean p)) (spread eps p))) out

  -- The kernels on all compute cores of a cluster. `tile` is the `seq_len` that `softmax_fp32` is
  -- called with.
  unfoldable pub softmax_fp32 : ℕ → ℕ → ℕ → ℕ → (ℕ → A) → ℕ → A
  softmax_fp32 cores batch_size seq_len tile output =
      cluster_rows softmax_row cores batch_size seq_len tile width output

  unfoldable pub layernorm_fp32_naive : ℕ → ℕ → ℕ → ℕ → (ℕ → A) → ℕ → A
  layernorm_fp32_naive cores batch_size seq_len eps output =
      cluster_rows (layernorm_row eps) cores batch_size seq_len (seq_len / cores) width output
