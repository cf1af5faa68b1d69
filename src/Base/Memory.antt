-- ===== src/Base/Memory.antt =====
-- Byte-addressed memory as a function, and its updates.
use Prim.Native.Nat.{ℕ}
use mathlib.Core.Path.{◌≡◌, sym, subst}
use mathlib.Core.Logic.{◌≢◌}
use native.Mathlib.Decide.{ℕ_discrete}
use native.Mathlib.Omega.{arith}
use snax_rebase.Base.Tests.{◌==◌, if◌then◌else◌}

-- The byte at each address.
abbrev pub Memory : Type 0
Memory = ℕ → ℕ

abbrev pub update {ℓ} : {A : Type ℓ} → (ℕ → A) → ℕ → A → ℕ → A
update m a v b = if a == b then v else m b

pub update_self {ℓ} : {A : Type ℓ} (m : ℕ → A) (a : ℕ) (v : A) → update m a v a ≡ v
update_self m a v = ground arith

pub update_ne {ℓ} : {A : Type ℓ} (m : ℕ → A) (a b : ℕ) (v : A) → a ≢ b → update m a v b ≡ m b
update_ne m a b v h = ground arith

-- What holds of the new value, and of the old one elsewhere, holds of every value.
pub update-each {ℓ κ} :
    {A : Type ℓ} (P : ℕ → A → Type κ) (m : ℕ → A) (i : ℕ) (v : A) (j : ℕ)
    → P i v
    → P j (m j)
    → P j (update m i v j)
update-each P m i v j new old = elim (ℕ_discrete i j) [
  | yes same ↦ subst (λ k. P k (update m i v k)) same (subst (P i) (sym (update_self m i v)) new)
  | no other ↦ subst (P j) (sym (update_ne m i j v other)) old
]
