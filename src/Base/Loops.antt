-- ===== src/Base/Loops.antt =====
-- Counting loops that emit a list, and how a nest of them is one loop.
use Prim.Native.Nat.{ℕ, zero, suc, ◌+◌, ◌*◌, ◌/◌, ◌%◌, ◌<◌}
use mathlib.Core.Path.{◌≡◌, refl, ap₂}
use mathlib.Core.List.{List, [], ◌++◌, append_assoc, append-nil}
use native.Mathlib.Omega.{arith}
use snax_rebase.Base.Tests.{ltb, ◌==◌, if◌then◌else◌}
use native.Mathlib.Nat.{
  add_comm, add-mul-div_right, add-mul-mod_self_right, div-eq_of_lt, mod-eq_of_lt,
}

module _ {ℓ} {A : Type ℓ} where
  -- `for (i = 0; i < n; i++)`, what each round emits joined in order
  unfoldable pub for_each : ℕ → (ℕ → List A) → List A
  for_each zero f = []
  for_each (suc n) f = for_each n f ++ f n

  pub for_each-ext :
      (n : ℕ) (f g : ℕ → List A) → ((i : ℕ) → i < n → f i ≡ g i) → for_each n f ≡ for_each n g
  unfolding for_each
  for_each-ext zero f g h = refl
  for_each-ext (suc n) f g h =
      ap₂ (λ xs ys. xs ++ ys) (for_each-ext n f g (λ i lt. h i (omega arith))) (h n (omega arith))

  for_each-add :
      (m n : ℕ) (f : ℕ → List A) → for_each (n + m) f ≡ for_each n f ++ for_each m (λ i. f (n + i))
  unfolding for_each
  for_each-add zero n f = let e : n + 0 ≡ n = omega arith in rw (e, append-nil (for_each n f)) refl
  for_each-add (suc m) n f =
      let e : n + suc m ≡ suc (n + m) = omega arith in
      rw (e, for_each-add m n f)
        (append_assoc (for_each n f) (for_each m (λ i. f (n + i))) (f (n + m)))

  -- Two nested loops are one, over the product of their counts.
  pub for_each-nest :
      (n m : ℕ) (f : ℕ → List A)
      → for_each n (λ i. for_each m (λ j. f (i * m + j))) ≡ for_each (n * m) f
  unfolding for_each
  for_each-nest zero m f = let e : 0 * m ≡ 0 = omega arith in rw e refl
  for_each-nest (suc n) m f =
      let e : suc n * m ≡ n * m + m = omega arith in
      rw (e, for_each-add m (n * m) f, for_each-nest n m f) refl

module _ {ℓ} {A : Type ℓ} where
  -- `for (i = 0; i < n; i++)` with a body that changes the state
  unfoldable pub loop : ℕ → (ℕ → A → A) → A → A
  loop zero f c = c
  loop (suc n) f c = f n (loop n f c)

  pub loop-ext :
      (n : ℕ) (f g : ℕ → A → A) (c : A)
      → ((i : ℕ) (x : A) → i < n → f i x ≡ g i x)
      → loop n f c ≡ loop n g c
  unfolding loop
  loop-ext zero f g c h = refl
  loop-ext (suc n) f g c h =
      rw (loop-ext n f g c (λ i x lt. h i x (omega arith))) (h n _ (omega arith))

  loop-add :
      (m n : ℕ) (f : ℕ → A → A) (c : A) → loop (n + m) f c ≡ loop m (λ i. f (n + i)) (loop n f c)
  unfolding loop
  loop-add zero n f c = let e : n + 0 ≡ n = omega arith in rw e refl
  loop-add (suc m) n f c =
      let e : n + suc m ≡ suc (n + m) = omega arith in rw (e, loop-add m n f c) refl

  pub loop-nest :
      (n m : ℕ) (f : ℕ → A → A) (c : A)
      → loop n (λ i. loop m (λ j. f (i * m + j))) c ≡ loop (n * m) f c
  unfolding loop
  loop-nest zero m f c = let e : 0 * m ≡ 0 = omega arith in rw e refl
  loop-nest (suc n) m f c =
      let e : suc n * m ≡ n * m + m = omega arith in
      rw (e, loop-add m (n * m) f c, loop-nest n m f c) refl

module _ {ℓ} {A : Type ℓ} where
  -- A loop whose round `x` changes the entry `x` of an array and no other
  pub loop_entries :
      (n : ℕ) (f : ℕ → (ℕ → A) → ℕ → A) (g : ℕ → A → A) (c : ℕ → A) (y : ℕ)
      → ((x : ℕ) (c : ℕ → A) (y : ℕ) → x < n → f x c y ≡ (if x == y then g x (c x) else c y))
      → loop n f c y ≡ (if ltb y n then g y (c y) else c y)
  unfolding loop
  loop_entries zero f g c y h = ground arith
  loop_entries (suc n) f g c y h = ground (
    arith,
    h n (loop n f c) y,
    loop_entries n f g c n (λ x c y lt. h x c y (omega arith)),
    loop_entries n f g c y (λ x c y lt. h x c y (omega arith)),
  )

-- The first `n` values of `f` added up.
unfoldable pub total : ℕ → (ℕ → ℕ) → ℕ
total zero f = 0
total (suc n) f = total n f + f n

-- Row-major positions: the row and the column of `i * n + j`
pub row_of : (i j n : ℕ) → j < n → (i * n + j) / n ≡ i
row_of i j n h =
    let e : i * n + j ≡ j + i * n = add_comm (i * n) j in
    rw (e, add-mul-div_right j i {z = n} (omega (arith, h)), div-eq_of_lt h) (omega arith)

pub column_of : (i j n : ℕ) → j < n → (i * n + j) % n ≡ j
column_of i j n h =
    let e : i * n + j ≡ j + i * n = add_comm (i * n) j in
    rw (e, add-mul-mod_self_right j i n) (mod-eq_of_lt h)
