-- ===== src/Snax/Config/Setup.antt =====
-- The order of the configuration calls (target/snitch_cluster/sw/snax).
use snax_rebase.Base.{
  ℕ, ◌<◌, ◌≡◌, refl, sym, ◌∙◌, arith, List, [], ◌∷◌, ◌++◌, ◌==◌, if◌then◌else◌, ltb, leb, Bool,
  true, false, ◌&&◌, ap, dec_lt,
}
use snax_rebase.Base.Memory.{update}
use snax_rebase.Alloc.{Allocators}
use snax_rebase.Snax.Config.{
  Write, perform, StreamerGemm, set_streamer_csr, set_block_gemm_csr, StreamerSimd,
  set_streamer_simd_csr, set_simd_csr,
}

-- Every write goes to a register from `low` on and below `high`.
unfoldable pub within : ℕ → ℕ → List Write → Bool
within low high [] = true
within low high (w ∷ ws) = leb low w.csr && ltb w.csr high && within low high ws

perform-append :
    (xs ys : List Write) (csrs : ℕ → ℕ) (r : ℕ)
    → perform (xs ++ ys) csrs r ≡ perform ys (perform xs csrs) r
unfolding perform
perform-append [] ys csrs r = refl
perform-append (w ∷ xs) ys csrs r = perform-append xs ys (update csrs w.csr w.value) r

head : (a b c : Bool) → (a && b && c) ≡ true → (a && b) ≡ true
head true b c h = first b c h
  where
    first : (b c : Bool) → (b && c) ≡ true → b ≡ true
    first true c h = refl
    first false c h = h
head false b c h = h

tail : (a b c : Bool) → (a && b && c) ≡ true → c ≡ true
tail true true c h = h
tail true false c h = absurd (ground arith)
tail false b c h = absurd (ground arith)

elsewhere :
    (low high r x v old : ℕ)
    → (leb low x && ltb x high) ≡ true
    → (leb low r && ltb r high) ≡ false
    → (if x == r then v else old) ≡ old
elsewhere low high r x v old h out = ground arith

-- A register outside the window keeps its value.
perform_outside :
    (low high : ℕ) (ws : List Write) (csrs : ℕ → ℕ) (r : ℕ)
    → within low high ws ≡ true
    → (leb low r && ltb r high) ≡ false
    → perform ws csrs r ≡ csrs r
unfolding perform within
perform_outside low high [] csrs r h out = refl
perform_outside low high (w ∷ ws) csrs r h out =
    perform_outside low high ws (update csrs w.csr w.value) r
      (tail (leb low w.csr) (ltb w.csr high) (within low high ws) h) out
    ∙ elsewhere low high r w.csr w.value (csrs r)
        (head (leb low w.csr) (ltb w.csr high) (within low high ws) h) out

-- A register's value after the writes depends on its own value before them alone.
perform_local :
    (ws : List Write) (f g : ℕ → ℕ) (r : ℕ) → f r ≡ g r → perform ws f r ≡ perform ws g r
unfolding perform
perform_local [] f g r e = e
perform_local (w ∷ ws) f g r e =
    perform_local ws (update f w.csr w.value) (update g w.csr w.value) r
      (ap (λ v. if w.csr == r then w.value else v) e)

pub commute :
    (low mid high : ℕ) (xs ys : List Write) (csrs : ℕ → ℕ) (r : ℕ)
    → within low mid xs ≡ true
    → within mid high ys ≡ true
    → perform (xs ++ ys) csrs r ≡ perform (ys ++ xs) csrs r
commute low mid high xs ys csrs r hx hy =
    perform-append xs ys csrs r ∙ go (dec_lt r mid) ∙ sym (perform-append ys xs csrs r)
  where
    go : Dec (r < mid) → perform ys (perform xs csrs) r ≡ perform xs (perform ys csrs) r
    go (yes below) =
        let out : (leb mid r && ltb r high) ≡ false = ground arith in
        perform_outside mid high ys (perform xs csrs) r hy out
        ∙ sym
            (perform_local xs (perform ys csrs) csrs r (perform_outside mid high ys csrs r hy out))
    go (no above) =
        let out : (leb low r && ltb r mid) ≡ false = ground arith in
        perform_local ys (perform xs csrs) csrs r (perform_outside low mid xs csrs r hx out)
        ∙ sym (perform_outside low mid xs (perform ys csrs) r hx out)

gemm_streamer :
    (g : StreamerGemm) (alloc : Allocators) → within 960 981 (set_streamer_csr g alloc) ≡ true
unfolding within set_streamer_csr
gemm_streamer g alloc = refl

gemm_block :
    (l0 l1 l2 subtractions : ℕ) → within 981 987 (set_block_gemm_csr l0 l1 l2 subtractions) ≡ true
unfolding within set_block_gemm_csr
gemm_block l0 l1 l2 subtractions = refl

simd_streamer :
    (s : StreamerSimd) (alloc : Allocators) → within 960 972 (set_streamer_simd_csr s alloc) ≡ true
unfolding within set_streamer_simd_csr
simd_streamer s alloc = refl

simd_unit : (csr0 csr1 csr2 bound : ℕ) → within 972 978 (set_simd_csr csr0 csr1 csr2 bound) ≡ true
unfolding within set_simd_csr
simd_unit csr0 csr1 csr2 bound = refl

-- The streamer of the matrix accelerator and the accelerator itself are configured by disjoint sets
-- of registers, and so are the streamer of the SIMD unit and the unit: all registers hold the same
-- after both calls in either order.
pub setups_commute :
    (g : StreamerGemm) (s : StreamerSimd) (alloc : Allocators) (l0 l1 l2 subtractions : ℕ)
    (csr0 csr1 csr2 bound : ℕ) (csrs : ℕ → ℕ) (r : ℕ)
    → ((perform (set_streamer_csr g alloc ++ set_block_gemm_csr l0 l1 l2 subtractions) csrs r
          ≡ perform (set_block_gemm_csr l0 l1 l2 subtractions ++ set_streamer_csr g alloc) csrs r)
        × (perform (set_streamer_simd_csr s alloc ++ set_simd_csr csr0 csr1 csr2 bound) csrs r
            ≡ perform (set_simd_csr csr0 csr1 csr2 bound ++ set_streamer_simd_csr s alloc) csrs r))
setups_commute g s alloc l0 l1 l2 subtractions csr0 csr1 csr2 bound csrs r = (
  commute 960 981 987 (set_streamer_csr g alloc) (set_block_gemm_csr l0 l1 l2 subtractions) csrs r
      (gemm_streamer g alloc) (gemm_block l0 l1 l2 subtractions),
  commute 960 972 978 (set_streamer_simd_csr s alloc) (set_simd_csr csr0 csr1 csr2 bound) csrs r
      (simd_streamer s alloc) (simd_unit csr0 csr1 csr2 bound),
)
