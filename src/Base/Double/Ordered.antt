-- ===== src/Base/Double/Ordered.antt =====
-- Laws of comparing, multiplying, dividing and rounding, and what follows from them.
use Prim.Native.Nat.{ℕ}
use mathlib.Core.Path.{◌≡◌, ap, subst, ◌∙◌}
use mathlib.Core.Bool.{true, false, not}
use polymarket_tickscope.Base.Tests.{Bool-cases}
use mathlib.Core.Logic.{inl, inr}
use native.Mathlib.Omega.{arith}
use polymarket_tickscope.Base.Double.{Double, clamp}
use polymarket_tickscope.Base.Double.Exact.{IsExact}

abbrev pub Le : (num : Double) → num.F → num.F → Type 0
Le num a b = num.le a b ≡ true

abbrev pub IsNonneg : (num : Double) → num.F → Type 0
IsNonneg num a = Le num (num.decimal 0 0) a

abbrev pub IsPos : (num : Double) → num.F → Type 0
IsPos num a = num.lt (num.decimal 0 0) a ≡ true

-- A total order that sums and products of numbers from 0 on respect. Quotients, and products
-- besides those by 1, are exact or rounded down. Rounding to a whole number goes to a nearest one.
pub record IsOrdered (num : Double) : Type 0 where
  pub le_trans : (a b c : num.F) → Le num a b → Le num b c → Le num a c
  pub le_total : (a b : num.F) → num.le a b ≡ false → Le num b a
  pub lt-eq-not-le : (a b : num.F) → num.lt a b ≡ not (num.le b a)
  pub add_mono : (a b c : num.F) → Le num a b → Le num (num.add a c) (num.add b c)
  pub mul_one : (a : num.F) → num.mul a (num.decimal 1 0) ≡ a
  pub one_mul : (a : num.F) → num.mul (num.decimal 1 0) a ≡ a
  pub mul-IsNonneg : (a b : num.F) → IsNonneg num a → IsNonneg num b → IsNonneg num (num.mul a b)
  pub square-IsNonneg : (a : num.F) → IsNonneg num (num.mul a a)
  pub mul_mono :
      (a b c : num.F)
      → IsNonneg num a
      → IsNonneg num c
      → Le num a b
      → Le num (num.mul a c) (num.mul b c)
  pub le-mul_self :
      (a b : num.F) → IsNonneg num a → Le num (num.decimal 1 0) b → Le num a (num.mul a b)
  pub mul-add :
      (a b c : num.F)
      → IsNonneg num a
      → IsNonneg num b
      → IsNonneg num c
      → Le num (num.add (num.mul a c) (num.mul b c)) (num.mul (num.add a b) c)
  pub div-IsNonneg : (a b : num.F) → IsNonneg num a → IsPos num b → IsNonneg num (num.div a b)
  pub div_mono :
      (a b c : num.F)
      → IsNonneg num a
      → IsPos num c
      → Le num a b
      → Le num (num.div a c) (num.div b c)
  pub div-add :
      (a b c : num.F)
      → IsNonneg num a
      → IsNonneg num b
      → IsPos num c
      → Le num (num.add (num.div a c) (num.div b c)) (num.div (num.add a b) c)
  pub div-mul : (a b : num.F) → IsNonneg num a → IsPos num b → Le num (num.mul (num.div a b) b) a
  pub mul-div : (a b : num.F) → IsNonneg num a → IsPos num b → Le num (num.div (num.mul a b) b) a
  pub round-IsNonneg : (a : num.F) → IsNonneg num a → IsNonneg num (num.round a)
  pub round_small :
      (a : num.F)
      → IsNonneg num a
      → Le num a (num.decimal 1 0)
      → Le num (num.round a) (num.decimal 1 0)
  pub round_double : (a : num.F) → Le num (num.decimal 1 0) a → Le num (num.round a) (num.add a a)
  pub decimal-IsNonneg : (m k : ℕ) → IsNonneg num (num.decimal m k)
  pub one-le-ten : Le num (num.decimal 1 0) (num.decimal 10 0)
  pub small-le-one : Le num (num.decimal 5 4) (num.decimal 1 0)
  pub ten_pos : IsPos num (num.decimal 10 0)
  pub two_fifths : Le num (num.add (num.decimal 20 2) (num.decimal 20 2)) (num.decimal 1 0)

module _ (num : Double) (exact : IsExact num) (ordered : IsOrdered num) where
  open num use {F, decimal, add, sub, mul, div, round, lt, le}
  open exact use {add_comm, add_assoc, zero-add, sub-add}
  open ordered use {
    le_trans, le_total, lt-eq-not-le, add_mono, mul_one, one_mul, mul-IsNonneg, mul_mono,
    le-mul_self, mul-add, div-IsNonneg, div_mono, div-add, div-mul, mul-div, round-IsNonneg,
    round_small, round_double, decimal-IsNonneg, one-le-ten, ten_pos, two_fifths,
  }

  pub le_refl : (a : F) → Le num a a
  le_refl a = elim (Bool-cases (le a a)) [ inl e ↦ e | inr e ↦ le_total a a e ]

  pub le_of_lt : (a b : F) → lt a b ≡ true → Le num a b
  le_of_lt a b h = ground (arith, lt-eq-not-le a b, le_total b a)

  pub le_of_not_lt : (a b : F) → lt a b ≡ false → Le num b a
  le_of_not_lt a b h = ground (arith, lt-eq-not-le a b)

  pub lt-not_le : (a b : F) → lt a b ≡ true → Le num b a → ⊥
  lt-not_le a b h k = ground (arith, lt-eq-not-le a b)

  pub IsPos-mono : (a b : F) → IsPos num a → Le num a b → IsPos num b
  IsPos-mono a b h k = elim (Bool-cases (le b (decimal 0 0))) [
    | inl small ↦ absurd (lt-not_le (decimal 0 0) a h (le_trans a b (decimal 0 0) k small))
    | inr big ↦ ground (arith, lt-eq-not-le (decimal 0 0) b)
  ]

  -- Sums of sums.
  pub add_mono_left : (a b c : F) → Le num a b → Le num (add c a) (add c b)
  add_mono_left a b c h = rw (add_comm c a, add_comm c b) (add_mono a b c h)

  pub add_mono_both : (a b c d : F) → Le num a b → Le num c d → Le num (add a c) (add b d)
  add_mono_both a b c d h k =
      le_trans (add a c) (add b c) (add b d) (add_mono a b c h) (add_mono_left c d b k)

  pub add-IsNonneg : (a b : F) → IsNonneg num a → IsNonneg num b → IsNonneg num (add a b)
  add-IsNonneg a b h k =
      subst (λ z. Le num z (add a b)) (zero-add (decimal 0 0))
        (add_mono_both (decimal 0 0) a (decimal 0 0) b h k)

  add-negated : (a c : F) → add (add a c) (sub (decimal 0 0) c) ≡ a
  add-negated a c =
      add_assoc a c (sub (decimal 0 0) c)
      ∙ ap (add a) (add_comm c (sub (decimal 0 0) c) ∙ sub-add (decimal 0 0) c)
      ∙ add_comm a (decimal 0 0)
      ∙ zero-add a

  -- What is taken from both sides.
  pub le_cancel : (a b c : F) → Le num (add a c) (add b c) → Le num a b
  le_cancel a b c h =
      rw (add-negated a c, add-negated b c) at
        (add_mono (add a c) (add b c) (sub (decimal 0 0) c) h)

  pub sub-IsNonneg : (a b : F) → Le num a b → IsNonneg num (sub b a)
  sub-IsNonneg a b h = le_cancel (decimal 0 0) (sub b a) a (rw (zero-add a, sub-add b a) h)

  pub clamp_bounds :
      (v lo hi : F) → Le num lo hi → Le num lo (clamp num v lo hi) × Le num (clamp num v lo hi) hi
  unfolding clamp
  clamp_bounds v lo hi h = elim (Bool-cases (lt v lo)) [
    | inl low ↦ rw low (le_refl lo, h)
    | inr e ↦ elim (Bool-cases (lt hi v)) [
      | inl high ↦ rw (e, high) (h, le_refl hi)
      | inr f ↦ rw (e, f) (le_of_not_lt v lo e, le_of_not_lt hi v f)
    ]
  ]
