-- ===== src/Bot/Strategy/Sizing.antt =====
-- src/bot/StrategyEngine.hpp: what an order of the Kelly rule costs.
use polymarket_tickscope.Base.{◌≡◌, refl, ◌⊎◌, true, inl, inr, Bool-cases, subst}
use polymarket_tickscope.Base.Double.{Double, clamp, max}
use polymarket_tickscope.Base.Double.Exact.{IsExact}
use polymarket_tickscope.Base.Double.Ordered.{
  Le, IsNonneg, IsPos, IsOrdered, le_of_lt, lt-not_le, add_mono_both, add-IsNonneg, clamp_bounds,
}
use polymarket_tickscope.Bot.Strategy.{kelly_size, kelly_min_sh, kelly_win_rate}

module _ (num : Double) (exact : IsExact num) (ordered : IsOrdered num) where
  open num use {F, decimal, add, sub, mul, div, round, lt, le}
  open ordered use {
    le_trans, mul_one, one_mul, mul-IsNonneg, mul_mono, le-mul_self, mul-add, div-IsNonneg,
    div_mono, div-add, div-mul, mul-div, round-IsNonneg, round_small, round_double,
    decimal-IsNonneg, one-le-ten, ten_pos, two_fifths,
  }

  -- Twice the largest fraction of the cash that the rule stakes.
  abbrev pub two_fifths_of : F → F
  two_fifths_of available = add (mul (decimal 20 2) available) (mul (decimal 20 2) available)

  fifth-IsNonneg :
      (available : F) → IsNonneg num available → IsNonneg num (mul (decimal 20 2) available)
  fifth-IsNonneg available cash = mul-IsNonneg (decimal 20 2) available (decimal-IsNonneg 20 2) cash

  two_fifths_of-le :
      (available : F) → IsNonneg num available → Le num (two_fifths_of available) available
  two_fifths_of-le available cash =
      le_trans _ _ _
        (mul-add (decimal 20 2) (decimal 20 2) available (decimal-IsNonneg 20 2)
          (decimal-IsNonneg 20 2) cash)
        (subst (Le num (mul (add (decimal 20 2) (decimal 20 2)) available)) (one_mul available) (
          mul_mono (add (decimal 20 2) (decimal 20 2)) (decimal 1 0) available
            (add-IsNonneg num exact ordered (decimal 20 2) (decimal 20 2) (decimal-IsNonneg 20 2)
              (decimal-IsNonneg 20 2))
            cash two_fifths))

  -- Twice the shares that at most a fifth of an amount buys.
  doubled-le :
      (f available px : F)
      → IsNonneg num f
      → Le num f (decimal 20 2)
      → IsNonneg num available
      → IsPos num px
      → Le num
          (add (div (mul f available) px) (div (mul f available) px))
          (div (two_fifths_of available) px)
  doubled-le f available px low high cash pos =
      let part = mul f available in
      let fifth = mul (decimal 20 2) available in
      let fifth_nonneg = fifth-IsNonneg available cash in
      let shares : Le num (div part px) (div fifth px) =
        div_mono part fifth px (mul-IsNonneg f available low cash) pos
          (mul_mono f (decimal 20 2) available low cash high) in
      le_trans _ _ _ (add_mono_both num exact ordered _ _ _ _ shares shares)
        (div-add fifth fifth px fifth_nonneg fifth_nonneg pos)

  -- A number of shares rounded to tenths.
  abbrev in_tenths : F → F
  in_tenths n = div (round (mul n (decimal 10 0))) (decimal 10 0)

  tenth-le : Le num (div (decimal 1 0) (decimal 10 0)) (decimal 1 0)
  tenth-le =
      le_trans _ _ _
        (div_mono (decimal 1 0) (mul (decimal 1 0) (decimal 10 0)) (decimal 10 0)
          (decimal-IsNonneg 1 0) ten_pos
          (le-mul_self (decimal 1 0) (decimal 10 0) (decimal-IsNonneg 1 0) one-le-ten))
        (mul-div (decimal 1 0) (decimal 10 0) (decimal-IsNonneg 1 0) ten_pos)

  -- Rounding makes at most one share, or at most twice as many.
  in_tenths-le :
      (n : F)
      → IsNonneg num n
      → lt (decimal 1 0) (in_tenths n) ≡ true
      → Le num (in_tenths n) (add n n)
  in_tenths-le n h more =
      let ten = mul n (decimal 10 0) in
      let ten_nonneg : IsNonneg num ten = mul-IsNonneg n (decimal 10 0) h (decimal-IsNonneg 10 0) in
      let rounded = round-IsNonneg ten ten_nonneg in
      elim (Bool-cases (le (decimal 1 0) ten)) [
        | inl big ↦
            le_trans _ _ _
              (div_mono (round ten) (mul (add n n) (decimal 10 0)) (decimal 10 0) rounded ten_pos (
                le_trans _ _ _ (round_double ten big)
                  (mul-add n n (decimal 10 0) h h (decimal-IsNonneg 10 0))))
              (mul-div (add n n) (decimal 10 0) (add-IsNonneg num exact ordered n n h h) ten_pos)
        | inr small ↦ absurd (
            lt-not_le num exact ordered (decimal 1 0) (in_tenths n) more (
              le_trans _ _ _
                (div_mono (round ten) (decimal 1 0) (decimal 10 0) rounded ten_pos
                  (round_small ten ten_nonneg (ordered.le_total _ _ small)))
                tenth-le))
      ]

  -- A rounded order, where it is above the least one.
  rounded-cost :
      (f available px : F)
      → IsNonneg num f
      → Le num f (decimal 20 2)
      → IsNonneg num available
      → IsPos num px
      → lt (decimal 1 0) (in_tenths (div (mul f available) px)) ≡ true
      → Le num (mul (in_tenths (div (mul f available) px)) px) (two_fifths_of available)
  rounded-cost f available px low high cash pos more =
      let n = div (mul f available) px in
      let n_nonneg : IsNonneg num n =
        div-IsNonneg (mul f available) px (mul-IsNonneg f available low cash) pos in
      let size_nonneg : IsNonneg num (in_tenths n) =
        le_trans _ _ _ (decimal-IsNonneg 1 0) (le_of_lt num exact ordered _ _ more) in
      le_trans _ _ _
        (mul_mono (in_tenths n) (div (two_fifths_of available) px) px size_nonneg
          (le_of_lt num exact ordered _ _ pos)
          (le_trans _ _ _ (in_tenths-le n n_nonneg more)
            (doubled-le f available px low high cash pos)))
        (div-mul (two_fifths_of available) px
          (add-IsNonneg num exact ordered _ _ (fifth-IsNonneg available cash)
            (fifth-IsNonneg available cash))
          pos)

  -- For a positive price, the rule orders one share, or more shares that cost at most two
  -- fifths of the cash.
  pub kelly_size-stake :
      (px available : F)
      → IsPos num px
      → IsNonneg num available
      → (kelly_size num px available ≡ decimal 1 0)
        ⊎ (lt (decimal 1 0) (kelly_size num px available) ≡ true)
          × Le num (mul (kelly_size num px available) px) (two_fifths_of available)
  unfolding kelly_size max
  kelly_size-stake px available pos cash =
      let b = div (sub (decimal 1 0) px) px in
      let edge = sub (kelly_win_rate num) (div (sub (decimal 1 0) (kelly_win_rate num)) b) in
      let f = clamp num (mul edge (decimal 5 1)) (decimal 0 0) (decimal 20 2) in
      let (low, high) =
        clamp_bounds num exact ordered (mul edge (decimal 5 1)) (decimal 0 0) (decimal 20 2)
          (decimal-IsNonneg 20 2) in
      elim (Bool-cases (lt (decimal 1 0) (in_tenths (div (mul f available) px)))) [
        | inl more ↦ rw more (inr (more, rounded-cost f available px low high cash pos more))
        | inr least ↦ rw least (inl refl)
      ]

  -- In arithmetic that is exact or rounds products and quotients down, for a positive price
  -- and cash for one share, the Kelly rule orders a number of shares that is not negative
  -- and that at this price costs no more than the cash.
  pub kelly_size-cost :
      (px available : F)
      → IsPos num px
      → Le num (mul px (kelly_min_sh num)) available
      → IsNonneg num (kelly_size num px available)
        × Le num (mul (kelly_size num px available) px) available
  kelly_size-cost px available pos funded =
      let one : Le num px available = subst (λ x. Le num x available) (mul_one px) funded in
      let cash : IsNonneg num available = le_trans _ _ _ (le_of_lt num exact ordered _ _ pos) one in
      elim (kelly_size-stake px available pos cash) [
        | inl least ↦ rw (least, one_mul px) (decimal-IsNonneg 1 0, one)
        | inr (more, cost) ↦ (
          le_trans _ _ _ (decimal-IsNonneg 1 0) (le_of_lt num exact ordered _ _ more),
          le_trans _ _ _ cost (two_fifths_of-le available cash),
        )
      ]
