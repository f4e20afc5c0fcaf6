-- ===== src/Tests/Fixed.antt =====
-- A concrete `Double` for the tests: signed millionths, products and quotients cut towards zero.
pub mod Ordered
use polymarket_tickscope.Base.{ℕ, suc, ◌+◌, ◌-◌, ◌*◌, ◌/◌, ◌^◌, ◌≡◌, arith, ltb, leb, if◌then◌else◌}
use polymarket_tickscope.Base.Double.{Double}
use polymarket_tickscope.Base.Double.Exact.{IsExact}

-- `negsuc n` is -(n + 1).
pub data ℤ : Type 0 where
  pos : ℕ → ℤ
  negsuc : ℕ → ℤ

abbrev pub pos_part : ℤ → ℕ
pos_part (pos n) = n
pos_part (negsuc n) = 0

abbrev pub neg_part : ℤ → ℕ
neg_part (pos n) = 0
neg_part (negsuc n) = suc n

-- a - b, as an integer.
abbrev pub sub_ℕ : ℕ → ℕ → ℤ
sub_ℕ a b = if leb b a then pos (a - b) else negsuc (b - a - 1)

unfoldable pub plus : ℤ → ℤ → ℤ
plus a b = sub_ℕ (pos_part a + pos_part b) (neg_part a + neg_part b)

unfoldable pub minus : ℤ → ℤ → ℤ
minus a b = sub_ℕ (pos_part a + neg_part b) (neg_part a + pos_part b)

abbrev pub magnitude : ℤ → ℕ
magnitude a = pos_part a + neg_part a

-- `n` with the sign that a product of `a` and `b` has.
abbrev pub with_signs : ℤ → ℤ → ℕ → ℤ
with_signs (pos _) (pos _) n = pos n
with_signs (negsuc _) (negsuc _) n = pos n
with_signs (pos _) (negsuc _) n = sub_ℕ 0 n
with_signs (negsuc _) (pos _) n = sub_ℕ 0 n

abbrev pub one : ℕ
one = 1000000

abbrev pub fixed : Double
fixed = record {
  F = ℤ;
  decimal = λ m k. pos (m * one / 10 ^ k);
  add = plus;
  sub = minus;
  mul = λ a b. with_signs a b (magnitude a * magnitude b / one);
  div = λ a b. with_signs a b (magnitude a * one / magnitude b);
  round = λ a. with_signs a (pos 0) ((magnitude a + one / 2) / one * one);
  lt = λ a b. ltb (pos_part a + neg_part b) (pos_part b + neg_part a);
  le = λ a b. leb (pos_part a + neg_part b) (pos_part b + neg_part a);
}

plus_comm : (a b : ℤ) → plus a b ≡ plus b a
unfolding plus
plus_comm a b = ground arith

plus_assoc : (a b c : ℤ) → plus (plus a b) c ≡ plus a (plus b c)
unfolding plus
plus_assoc a b c = ground arith

plus_zero : (a : ℤ) → plus (pos 0) a ≡ a
unfolding plus
plus_zero a = ground arith

minus-plus : (a b : ℤ) → plus (minus a b) b ≡ a
unfolding plus minus
minus-plus a b = ground arith

plus-minus : (a b : ℤ) → minus (plus a b) b ≡ a
unfolding plus minus
plus-minus a b = ground arith

pub fixed-IsExact : IsExact fixed
fixed-IsExact = record {
  add_comm = plus_comm;
  add_assoc = plus_assoc;
  zero-add = plus_zero;
  sub-add = minus-plus;
  add-sub = plus-minus;
}
