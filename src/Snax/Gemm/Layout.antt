-- ===== src/Snax/Gemm/Layout.antt =====
-- The order in which `load_input_data` of snax-gemm-lib.c reads the matrices.
use snax_rebase.Base.{
  ℕ, zero, suc, ◌+◌, ◌*◌, ◌≡◌, refl, ◌∙◌, ap, ap₂, arith, List, [], ◌∷◌, ◌++◌, map,
}
use mathlib.Core.List.{map-append}
use snax_rebase.Base.Loops.{for_each, for_each-ext, for_each-nest}
use snax_rebase.Base.Words.{u32}
use snax_rebase.Snax.Gemm.{Copy, Strides, load_a, load_b, load_input_data}

-- A transfer without its destination
unfoldable pub source : Copy → Copy
source c = record c { dst = 0 }

source-for_each :
    (n : ℕ) (f : ℕ → List Copy) → map source (for_each n f) ≡ for_each n (λ i. map source (f i))
unfolding for_each
source-for_each zero f = refl
source-for_each (suc n) f =
    map-append source (for_each n f) (f n) ∙ ap (λ xs. xs ++ map source (f n)) (source-for_each n f)

-- The transfers of `count` tiles of 64 bytes, one behind the other
pub tiles : ℕ → ℕ → List Copy
tiles start count =
    for_each count (λ i. record { dst = 0; src = u32 (start + i * 64); size = 64 } ∷ [])

-- A nest of three loops that emits tile `(i * m + j) * k + l` emits the tiles in order.
nest_three :
    (n m k : ℕ) (g : ℕ → List Copy)
    → for_each n (λ i. for_each m (λ j. for_each k (λ l. g ((i * m + j) * k + l))))
      ≡ for_each (n * m * k) g
nest_three n m k g =
    for_each-nest n m (λ x. for_each k (λ l. g (x * k + l))) ∙ for_each-nest (n * m) k g

index_a :
    (m k b i j : ℕ) → b * m * 8 * 8 * k + i * 8 * 8 * k + j * 8 * 8 ≡ ((b * m + i) * k + j) * 64
index_a m k b i j = grind arith

index_b :
    (n k i j l : ℕ) → i * k * 8 * 8 * n + j * 8 * 8 * k + l * 8 * 8 ≡ ((i * n + j) * k + l) * 64
index_b n k i j l = grind arith

-- The tile `x` on its own
tile : ℕ → ℕ → List Copy
tile start x = record { dst = 0; src = u32 (start + x * 64); size = 64 } ∷ []

pub source-for_three :
    (n m k : ℕ) (g : ℕ → List Copy) (f : ℕ → ℕ → ℕ → List Copy)
    → ((i j l : ℕ) → map source (f i j l) ≡ g ((i * m + j) * k + l))
    → map source (for_each n (λ i. for_each m (λ j. for_each k (λ l. f i j l))))
      ≡ for_each (n * m * k) g
source-for_three n m k g f h =
    source-for_each n _
    ∙ for_each-ext n _ _ (λ i _.
      source-for_each m _
      ∙ for_each-ext m _ _ (λ j _. source-for_each k _ ∙ for_each-ext k _ _ (λ l _. h i j l)))
    ∙ nest_three n m k g

source-load_a :
    (batch m k : ℕ) (s : Strides) (local_a a : ℕ)
    → map source (load_a batch m k s local_a a) ≡ tiles a (batch * m * k)
unfolding load_a tiles source tile
source-load_a batch m k s local_a a =
    source-for_three batch m k (tile a) _
      (λ b i j. ap (λ x. record { dst = 0; src = u32 (a + x); size = 64 } ∷ []) (index_a m k b i j))

source-load_b :
    (batch n k : ℕ) (s : Strides) (local_b b : ℕ)
    → map source (load_b batch n k s local_b b) ≡ tiles b (batch * n * k)
unfolding load_b tiles source tile
source-load_b batch n k s local_b b =
    source-for_three batch n k (tile b) _
      (λ i j l. ap (λ x. record { dst = 0; src = u32 (b + x); size = 64 } ∷ []) (index_b n k i j l))

-- `load_input_data` reads the two matrices from their starts on without a gap, a tile of 64 bytes
-- after the other, each tile once: first the tiles of the first matrix, then those of the second.
pub load_input_data_reads :
    (batch m k n local_a local_b a b : ℕ) (sa sb : Strides)
    → map source (load_input_data batch m k n local_a local_b a b sa sb)
      ≡ tiles a (batch * m * k) ++ tiles b (batch * n * k)
unfolding load_input_data
load_input_data_reads batch m k n local_a local_b a b sa sb =
    map-append source (load_a batch m k sa local_a a) (load_b batch n k sb local_b b)
    ∙ ap₂ (λ xs ys. xs ++ ys) (source-load_a batch m k sa local_a a)
        (source-load_b batch n k sb local_b b)
