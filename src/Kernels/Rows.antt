-- ===== src/Kernels/Rows.antt =====
-- How `softmax_fp32` and `layernorm_fp32_naive` (sw/dnn) go over the rows of a batch: the compute cores
-- take the rows of each sample in turn.
pub mod Cluster
pub mod Writes
use snax_rebase.Base.{ℕ, ◌+◌, ◌*◌, ◌<◌, ◌≡◌, ◌≢◌}
use snax_rebase.Base.Loops.{loop}
use snax_rebase.Base.Words.{add_u32, mul_u32}

-- The subscript `b * batch_offset + s * stride + i`
abbrev pub position : ℕ → ℕ → ℕ → ℕ → ℕ → ℕ
position batch_offset stride b s i = add_u32 (add_u32 (mul_u32 b batch_offset) (mul_u32 s stride)) i

module _ {A : Type 0} (row : (ℕ → ℕ) → (ℕ → A) → ℕ → A) where
  -- The two outer loops of a core, over the array from `start` on; `row` runs on the subscripts of a row.
  unfoldable pub core_rows : ℕ → ℕ → ℕ → ℕ → ℕ → (ℕ → A) → ℕ → A
  core_rows batch_size tile start batch_offset stride out =
      loop batch_size (λ b. loop tile (λ s. row (λ i. start + position batch_offset stride b s i)))
        out

  -- All compute cores, whose order does not matter: they write different rows.
  unfoldable pub cluster_rows : ℕ → ℕ → ℕ → ℕ → ℕ → (ℕ → A) → ℕ → A
  cluster_rows cores batch_size seq_len tile width out =
      loop cores
        (λ id.
          core_rows batch_size tile (mul_u32 id width) (mul_u32 seq_len width)
            (mul_u32 cores width))
        out

-- A row of `width` elements gets the values `value`, and nothing else changes.
pub record IsRow {A : Type 0} (width : ℕ) (row : (ℕ → ℕ) → (ℕ → A) → ℕ → A)
    (value : (ℕ → ℕ) → ℕ → A) : Type 0 where
  pub own :
      (p : ℕ → ℕ) (out : ℕ → A) (i : ℕ)
      → ((j k : ℕ) → j < width → k < width → p j ≡ p k → j ≡ k)
      → i < width
      → row p out (p i) ≡ value p i
  pub off :
      (p : ℕ → ℕ) (out : ℕ → A) (y : ℕ) → ((i : ℕ) → i < width → p i ≢ y) → row p out y ≡ out y
  pub same :
      (p q : ℕ → ℕ) (i : ℕ) → ((j : ℕ) → j < width → p j ≡ q j) → i < width → value p i ≡ value q i
