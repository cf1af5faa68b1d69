-- ===== src/Omp/Microtask/Calls.antt =====
-- Which calls of the microtask a parallel region makes (sw/snRuntime/src/omp/kmp.c).
use snax_rebase.Base.{
  ℕ, zero, suc, ◌+◌, ◌-◌, ◌≤◌, ◌<◌, ◌≡◌, refl, true, ◌++◌, ◌∙◌, sym, subst, ap, ap₂, List, [], ◌∷◌,
  map, length, arith, leb, lt→ltb,
}
use snax_rebase.Base.Memory.{update, update_self, update_ne}
use snax_rebase.Base.Words.{u32}
use snax_rebase.Omp.Microtask.{
  Words, call, copy_varargs, store_args, argv_from, call_with, from_case, microtask_wrapper,
}

copy_below : (i : ℕ) (xs : List ℕ) (w : Words) (j : ℕ) → j < i → copy_varargs i xs w j ≡ w j
unfolding copy_varargs
copy_below i [] w j h = refl
copy_below i (x ∷ xs) w j h =
    copy_below (i + 1) xs (update w i (u32 x)) j (omega arith)
    ∙ update_ne w i j (u32 x) (omega arith)

argv_copied :
    (i : ℕ) (xs : List ℕ) (w : Words) → argv_from i (length xs) (copy_varargs i xs w) ≡ map u32 xs
unfolding copy_varargs
argv_copied i [] w = refl
argv_copied i (x ∷ xs) w =
    ap₂ ◌∷◌ (copy_below (i + 1) xs (update w i (u32 x)) i (omega arith) ∙ update_self w i (u32 x))
      (argv_copied (i + 1) xs (update w i (u32 x)))

-- With up to seven arguments, a region whose arguments `__kmpc_fork_call` has stored leads to
-- exactly one call of the microtask, with those arguments in order.
pub fork_calls_once :
    (microtask : ℕ) (args : List ℕ) (w : Words)
    → length args ≤ 7
    → microtask_wrapper (length args) (store_args microtask args w)
      ≡ call (u32 microtask) (map u32 args) ∷ []
unfolding microtask_wrapper from_case store_args
fork_calls_once microtask args w h =
    let first =
      copy_below 1 args (update w 0 (u32 microtask)) 0 (omega arith)
      ∙ update_self w 0 (u32 microtask) in
    rw (le_twelve (length args) h, lt→ltb (length args) 8 (omega arith))
      (ap₂ (λ f xs. call f xs ∷ []) first (argv_copied 1 args (update w 0 (u32 microtask))))
  where
    le_twelve : (k : ℕ) → k ≤ 7 → leb k 12 ≡ true
    le_twelve k h = ground arith

-- The argument counts from `k` on, `n` of them.
abbrev pub counts : ℕ → ℕ → List ℕ
counts k zero = []
counts k (suc n) = k ∷ counts (k + 1) n

labels :
    (d : ℕ)
    → d ≤ 4
    → (w : Words)
    → microtask_wrapper (d + 8) w ≡ map (λ k. call_with k w) (counts (d + 8) (13 - (d + 8)))
unfolding microtask_wrapper from_case
labels zero h w = refl
labels (suc zero) h w = refl
labels (suc (suc zero)) h w = refl
labels (suc (suc (suc zero))) h w = refl
labels (suc (suc (suc (suc zero)))) h w = refl
labels (suc (suc (suc (suc (suc d))))) h w = absurd (omega arith)

-- The words from the last argument on are those that were there before.
copy_above :
    (i : ℕ) (xs : List ℕ) (w : Words) (j : ℕ) → i + length xs ≤ j → copy_varargs i xs w j ≡ w j
unfolding copy_varargs
copy_above i [] w j h = refl
copy_above i (x ∷ xs) w j h =
    copy_above (i + 1) xs (update w i (u32 x)) j (omega arith)
    ∙ update_ne w i j (u32 x) (omega arith)

argv_same :
    (i d : ℕ) (v w : Words) → ((j : ℕ) → i ≤ j → v j ≡ w j) → argv_from i d v ≡ argv_from i d w
argv_same i zero v w h = refl
argv_same i (suc d) v w h =
    ap₂ ◌∷◌ (h i (omega arith)) (argv_same (i + 1) d v w (λ j le. h j (omega arith)))

argv_split :
    (i n d : ℕ) (w : Words) → argv_from i (n + d) w ≡ argv_from i n w ++ argv_from (i + n) d w
argv_split i zero d w =
    let e : 0 + d ≡ d = omega arith in let e' : i + 0 ≡ i = omega arith in rw (e, e') refl
argv_split i (suc n) d w =
    let e : suc n + d ≡ suc (n + d) = omega arith in
    let e' : i + suc n ≡ i + 1 + n = omega arith in
    rw (e, e') (ap (λ xs. w i ∷ xs) (argv_split (i + 1) n d w))

-- A call with the stored arguments and `d` more
call_past :
    (microtask : ℕ) (args : List ℕ) (w : Words) (d : ℕ)
    → call_with (length args + d) (store_args microtask args w)
      ≡ call (u32 microtask) (map u32 args ++ argv_from (1 + length args) d w)
unfolding store_args
call_past microtask args w d =
    let stored = update w 0 (u32 microtask) in
    ap₂ call (copy_below 1 args stored 0 (omega arith) ∙ update_self w 0 (u32 microtask)) (
      argv_split 1 (length args) d (copy_varargs 1 args stored)
      ∙ ap₂ ◌++◌ (argv_copied 1 args stored) (
          argv_same (1 + length args) d (copy_varargs 1 args stored) w (λ j le.
            copy_above 1 args stored j le ∙ update_ne w 0 j (u32 microtask) (omega arith))))

-- The calls with `n` stored arguments and `d` more, `d + 1` more, and so on, `m` of them
calls_past :
    (microtask : ℕ) (args : List ℕ) (w : Words) (m d : ℕ)
    → map (λ k. call_with k (store_args microtask args w)) (counts (length args + d) m)
      ≡ map
          (λ k. call (u32 microtask) (map u32 args ++ argv_from (1 + length args) k w))
          (counts d m)
calls_past microtask args w zero d = refl
calls_past microtask args w (suc m) d =
    let e : length args + d + 1 ≡ length args + (d + 1) = omega arith in
    rw e (ap₂ ◌∷◌ (call_past microtask args w d) (calls_past microtask args w m (d + 1)))

-- A region with 8 to 12 arguments that `__kmpc_fork_call` has stored calls the microtask not once but
-- `13 - n` times for `n` arguments: first with the arguments, then each time with one word more, those
-- that lay behind the arguments before.
pub wrapper_falls_through :
    (microtask : ℕ) (args : List ℕ) (w : Words)
    → 8 ≤ length args
    → length args ≤ 12
    → microtask_wrapper (length args) (store_args microtask args w)
      ≡ map
          (λ k. call (u32 microtask) (map u32 args ++ argv_from (1 + length args) k w))
          (counts 0 (13 - length args))
wrapper_falls_through microtask args w lo hi =
    let e : length args ≡ length args - 8 + 8 = omega arith in
    let none_more : length args ≡ length args + 0 = omega arith in
    subst
      (λ n.
        microtask_wrapper n (store_args microtask args w)
        ≡ map (λ k. call_with k (store_args microtask args w)) (counts n (13 - n)))
      (sym e) (labels (length args - 8) (omega arith) (store_args microtask args w))
    ∙ ap (λ n. map (λ k. call_with k (store_args microtask args w)) (counts n (13 - length args)))
        none_more
    ∙ calls_past microtask args w (13 - length args) 0

copy_at :
    (i : ℕ) (xs : List ℕ) (x : ℕ) (ys : List ℕ) (w : Words)
    → copy_varargs i (xs ++ (x ∷ ys)) w (i + length xs) ≡ u32 x
unfolding copy_varargs
copy_at i [] x ys w =
    let e : i + 0 ≡ i = omega arith in
    rw e (copy_below (i + 1) ys (update w i (u32 x)) i (omega arith) ∙ update_self w i (u32 x))
copy_at i (y ∷ xs) x ys w =
    let e : i + suc (length xs) ≡ i + 1 + length xs = omega arith in
    rw e (copy_at (i + 1) xs x ys (update w i (u32 y)))

-- `__kmpc_fork_call` stores the function at index 0 and the argument that follows `xs` at the index
-- one past the number of those; it leaves alone the words past the last argument. So the twelfth
-- argument goes to the index 12, `KMP_FORK_MAX_NARGS`.
pub store_args_places :
    (microtask x : ℕ) (xs ys : List ℕ) (w : Words) (j : ℕ)
    → 1 + length (xs ++ (x ∷ ys)) ≤ j
    → (store_args microtask (xs ++ (x ∷ ys)) w 0 ≡ u32 microtask)
      × (store_args microtask (xs ++ (x ∷ ys)) w (1 + length xs) ≡ u32 x)
      × (store_args microtask (xs ++ (x ∷ ys)) w j ≡ w j)
unfolding store_args
store_args_places microtask x xs ys w j h = (
  copy_below 1 (xs ++ (x ∷ ys)) (update w 0 (u32 microtask)) 0 (omega arith)
      ∙ update_self w 0 (u32 microtask),
  copy_at 1 xs x ys (update w 0 (u32 microtask)),
  copy_above 1 (xs ++ (x ∷ ys)) (update w 0 (u32 microtask)) j h
      ∙ update_ne w 0 j (u32 microtask) (omega arith),
)
