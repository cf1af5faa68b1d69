-- ===== src/Ssr/Stream.antt =====
-- The addresses of a stream that sw/snRuntime/src/ssr.h configures. The address generator of
-- hw/snitch_ssr counts its loops from the innermost on and adds the stride of the outermost loop
-- that it advances.
use snax_rebase.Base.{
  ap, ℕ, ◌+◌, ◌-◌, ◌*◌, ◌/◌, ◌%◌, ◌^◌, ◌<◌, ◌≤◌, ◌≡◌, refl, ◌==◌, if◌then◌else◌, arith, List, [],
  ◌∷◌, ◌⊎◌, inl, inr, zero, suc, mul_comm, true, false,
}
use snax_rebase.Base.Words.{u32, add_u32, sub_u32}
use snax_rebase.Ssr.{SsrConfig, reach, ssr_loop_4d}

-- `IndexWidth` and `PointerWidth` of the generator with a TCDM of 128 KiB and words of 64 bits, the
-- sizes of the default configuration (util/clustergen/cluster.py takes them from these).
abbrev pub index_width : ℕ
index_width = 14

abbrev pub pointer_width : ℕ
pointer_width = 17

-- `stride_sd`: the register keeps the bits of `WordAddrMask` that a pointer has. `bound_sd`: it keeps
-- those that an index has.
abbrev pub held_stride : ℕ → ℕ
held_stride s = (s - s % 8) % 2 ^ pointer_width

abbrev pub held_bound : ℕ → ℕ
held_bound b = b % 2 ^ index_width

-- Bound and stride of each loop, from the innermost, as the generator holds them
abbrev pub loops : ℕ → ℕ → SsrConfig → List (ℕ × ℕ)
loops zero i cfg = []
loops (suc n) i cfg = (held_bound (cfg (2 + i)), held_stride (cfg (6 + i))) ∷ loops n (i + 1) cfg

-- One step of the generator with all of these loops enabled: the indices of the loops and the pointer
unfoldable pub advance : List (ℕ × ℕ) → List ℕ → ℕ → List ℕ × ℕ
advance [] is p = ([], p)
advance (l ∷ ls) [] p = ([], p)
advance ((b, s) ∷ ls) (i ∷ is) p =
    let (rest, q) = advance ls is p in
    if i == b then (0 ∷ rest, q) else ((i + 1) % 2 ^ index_width ∷ is, (p + s) % 2 ^ pointer_width)

-- What a nest of loops with the given bounds and strides has to be programmed with, when the inner
-- loops have moved the pointer by `a`
abbrev pub programmed : ℕ → List (ℕ × ℕ) → List (ℕ × ℕ)
programmed a [] = []
programmed a ((b, s) ∷ ls) =
    (held_bound (sub_u32 b 1), held_stride (sub_u32 s a)) ∷ programmed (reach a (sub_u32 b 1) s) ls

-- The place of an element of the nest: each index times its stride
abbrev pub offset : List (ℕ × ℕ) → List ℕ → ℕ
offset [] is = 0
offset (l ∷ ls) [] = 0
offset ((b, s) ∷ ls) (i ∷ is) = i * s + offset ls is

-- Some loop is not at its last round. Up to the first such loop, itself included, the indices are
-- within their bounds, the bounds fit the generator's indices, and the strides are multiples of 8.
abbrev pub Runs : List (ℕ × ℕ) → List ℕ → Type 0
Runs [] is = ⊥
Runs (l ∷ ls) [] = ⊥
Runs ((b, s) ∷ ls) (i ∷ is) =
    (i < b) × (b ≤ 2 ^ index_width) × (s % 8 ≡ 0) × (((i + 1 ≡ b) × Runs ls is) ⊎ (i + 1 < b))

step_here :
    (p s a x x' r : ℕ)
    → x' ≡ x + s
    → s % 8 ≡ 0
    → a % 8 ≡ 0
    → ((p + held_stride (sub_u32 s a)) % 2 ^ 17 + (x + r) + a) % 2 ^ 17 ≡ (p + (x' + r)) % 2 ^ 17
step_here p s a x x' r h whole_s whole_a = omega (arith, h, whole_s, whole_a)

step_deeper :
    (q r a x y z p r' : ℕ)
    → x ≡ y
    → z ≡ 0
    → (q + r + add_u32 a (u32 y)) % 2 ^ 17 ≡ (p + r') % 2 ^ 17
    → (q + (x + r) + a) % 2 ^ 17 ≡ (p + (z + r')) % 2 ^ 17
step_deeper q r a x y z p r' e o h = omega (arith, e, o, h)

scaled : (s q i : ℕ) → s ≡ 8 * q → s * i ≡ 8 * (q * i)
scaled s q i e = omega (arith, ap (λ (t : ℕ). t * i) e)

reach_whole : (a i s : ℕ) → a % 8 ≡ 0 → s % 8 ≡ 0 → reach a i s % 8 ≡ 0
reach_whole a i s whole_a whole_s =
    omega (arith, whole_a, scaled s (s / 8) i (omega (arith, whole_s)))

next_row : (i s : ℕ) → (i + 1) * s ≡ i * s + s
next_row i s = grind arith

advances :
    (a : ℕ) (ls : List (ℕ × ℕ)) (is : List ℕ) (p : ℕ)
    → a % 8 ≡ 0
    → Runs ls is
    → ((advance (programmed a ls) is p).1 + offset ls is + a) % 2 ^ 17
      ≡ (p + offset ls (advance (programmed a ls) is p).0) % 2 ^ 17
unfolding advance
advances a [] is p whole run = absurd run
advances a (l ∷ ls) [] p whole run = absurd run
advances a ((b, s) ∷ ls) (i ∷ is) p whole (lt, fits, whole_s, inl (last, run)) =
    let at_end : sub_u32 b 1 ≡ i = omega (arith, last) in
    let held : held_bound i ≡ i = omega arith in
    let here : (i == i) ≡ true = ground arith in
    rw (at_end, held, here)
      (step_deeper (advance (programmed (reach a i s) ls) is p).1 (offset ls is) a (i * s) (s * i)
        (0 * s) p (offset ls (advance (programmed (reach a i s) ls) is p).0) (mul_comm i s)
        (omega arith) (advances (reach a i s) ls is p (reach_whole a i s whole whole_s) run))
advances a ((b, s) ∷ ls) (i ∷ is) p whole (lt, fits, whole_s, inr more) =
    let before : (i == held_bound (sub_u32 b 1)) ≡ false = ground (arith, more, fits) in
    let next : (i + 1) % 2 ^ index_width ≡ i + 1 = omega arith in
    rw (before, next)
      (step_here p s a (i * s) ((i + 1) * s) (offset ls is) (next_row i s) whole_s whole)

-- The four loops of a nest, from the innermost
abbrev pub nest_4d : ℕ → ℕ → ℕ → ℕ → ℕ → ℕ → ℕ → ℕ → List (ℕ × ℕ)
nest_4d b0 b1 b2 b3 s0 s1 s2 s3 = (b0, s0) ∷ (b1, s1) ∷ (b2, s2) ∷ (b3, s3) ∷ []

loops_4d :
    (b0 b1 b2 b3 s0 s1 s2 s3 : ℕ) (cfg : SsrConfig)
    → loops 4 0 (ssr_loop_4d b0 b1 b2 b3 s0 s1 s2 s3 cfg)
      ≡ programmed 0 (nest_4d b0 b1 b2 b3 s0 s1 s2 s3)
unfolding ssr_loop_4d
loops_4d b0 b1 b2 b3 s0 s1 s2 s3 cfg = refl

-- After `snrt_ssr_loop_4d` the address generator, with the widths of the default configuration and
-- all four loops enabled, keeps its pointer in place: with indices inside their bounds, not all at
-- their last round, a step adds to the pointer what the offset of the element, each index times its
-- stride, grows by, modulo the width of the pointer. Up to the loop that advances the bounds are at
-- most 2^14 and the strides multiples of 8, the size of a word.
pub ssr_loop_4d_follows :
    (b0 b1 b2 b3 s0 s1 s2 s3 : ℕ) (cfg : SsrConfig) (at : List ℕ) (p : ℕ)
    → Runs (nest_4d b0 b1 b2 b3 s0 s1 s2 s3) at
    → let nest = nest_4d b0 b1 b2 b3 s0 s1 s2 s3 in
      let after = advance (loops 4 0 (ssr_loop_4d b0 b1 b2 b3 s0 s1 s2 s3 cfg)) at p in
      (after.1 + offset nest at) % 2 ^ pointer_width ≡ (p + offset nest after.0) % 2 ^ pointer_width
ssr_loop_4d_follows b0 b1 b2 b3 s0 s1 s2 s3 cfg at p run =
    rw (loops_4d b0 b1 b2 b3 s0 s1 s2 s3 cfg)
      (omega (arith, advances 0 (nest_4d b0 b1 b2 b3 s0 s1 s2 s3) at p refl run))
