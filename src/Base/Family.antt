-- ===== src/Base/Family.antt =====
-- Families `ℕ → A`, for arrays and for the threads of a system, and update at one index.
use Prim.Native.Nat.{ℕ}
use mathlib.Core.Path.{◌≡◌, sym, subst}
use mathlib.Core.Logic.{ite, ◌≢◌}
use native.Mathlib.Decide.{ℕ_discrete}
use native.Mathlib.Omega.{arith}

abbrev pub update {ℓ} : {A : Type ℓ} → (ℕ → A) → ℕ → A → ℕ → A
update f i a j = ite (ℕ_discrete i j) a (f j)

module _ {ℓ} {A : Type ℓ} where
  pub update_self : (f : ℕ → A) (i : ℕ) (a : A) → update f i a i ≡ a
  update_self f i a = ground arith

  pub update_ne : (f : ℕ → A) (i j : ℕ) (a : A) → i ≢ j → update f i a j ≡ f j
  update_ne f i j a h = ground arith

  -- What the new value has, and the old ones at the other indices, all have.
  pub update_either {κ} :
      (P : A → Type κ) (f : ℕ → A) (i j : ℕ) (a : A) → P a → (i ≢ j → P (f j)) → P (update f i a j)
  update_either P f i j a new old = elim (ℕ_discrete i j) [
    | yes e ↦ subst (λ k. P (update f i a k)) e (subst P (sym (update_self f i a)) new)
    | no ne ↦ subst P (sym (update_ne f i j a ne)) (old ne)
  ]
