-- ===== src/Tests/Fixed/Ordered.antt =====
-- Millionths obey the laws of an order with products and quotients rounded down.
use native.Mathlib.Nat.{
  div-mul-le_self, le-div_iff_mul-le, mul-le-mul_right, mul_comm, add-mul, div-le_of_le-mul,
}
use polymarket_tickscope.Base.{ℕ, ◌+◌, ◌*◌, ◌/◌, ◌≤◌, ◌<◌, ◌≡◌, refl, not, false, arith}
use polymarket_tickscope.Base.Double.Ordered.{Le, IsNonneg, IsPos, IsOrdered}
use polymarket_tickscope.Bot.Strategy.{kelly_size}
use polymarket_tickscope.Bot.Strategy.Sizing.{kelly_size-cost}
use polymarket_tickscope.Tests.Fixed.{ℤ, pos, negsuc, plus, fixed, fixed-IsExact, one}

le_trans : (a b c : ℤ) → Le fixed a b → Le fixed b c → Le fixed a c
le_trans a b c h k = ground arith

le_total : (a b : ℤ) → fixed.le a b ≡ false → Le fixed b a
le_total a b h = ground arith

lt-eq-not-le : (a b : ℤ) → fixed.lt a b ≡ not (fixed.le b a)
lt-eq-not-le a b = ground arith

add_mono : (a b c : ℤ) → Le fixed a b → Le fixed (fixed.add a c) (fixed.add b c)
unfolding plus
add_mono a b c h = ground arith

mul_one : (a : ℤ) → fixed.mul a (fixed.decimal 1 0) ≡ a
mul_one (pos n) = ground arith
mul_one (negsuc n) = ground arith

one_mul : (a : ℤ) → fixed.mul (fixed.decimal 1 0) a ≡ a
one_mul (pos n) = ground arith
one_mul (negsuc n) = ground arith

mul-IsNonneg : (a b : ℤ) → IsNonneg fixed a → IsNonneg fixed b → IsNonneg fixed (fixed.mul a b)
mul-IsNonneg (pos m) (pos n) h k = ground arith
mul-IsNonneg (pos m) (negsuc n) h k = ground arith
mul-IsNonneg (negsuc m) b h k = ground arith

square-IsNonneg : (a : ℤ) → IsNonneg fixed (fixed.mul a a)
square-IsNonneg (pos n) = ground arith
square-IsNonneg (negsuc n) = ground arith

-- a * c / one grows with a.
mul_div_mono : (a b c : ℕ) → a ≤ b → a * c / one ≤ b * c / one
mul_div_mono a b c h = omega (arith, mul-le-mul_right c h)

mul_mono :
    (a b c : ℤ)
    → IsNonneg fixed a
    → IsNonneg fixed c
    → Le fixed a b
    → Le fixed (fixed.mul a c) (fixed.mul b c)
mul_mono (pos a) (pos b) (pos c) h k l = ground (arith, mul_div_mono a b c)
mul_mono (negsuc a) b c h k l = ground arith
mul_mono a (negsuc b) c h k l = ground arith
mul_mono a b (negsuc c) h k l = ground arith

le-mul_self :
    (a b : ℤ) → IsNonneg fixed a → Le fixed (fixed.decimal 1 0) b → Le fixed a (fixed.mul a b)
le-mul_self (pos a) (pos b) h k = ground (arith, mul_div_mono one b a)
le-mul_self (negsuc a) b h k = ground arith
le-mul_self a (negsuc b) h k = ground arith

mul-add :
    (a b c : ℤ)
    → IsNonneg fixed a
    → IsNonneg fixed b
    → IsNonneg fixed c
    → Le fixed (fixed.add (fixed.mul a c) (fixed.mul b c)) (fixed.mul (fixed.add a b) c)
unfolding plus
mul-add (pos a) (pos b) (pos c) h k l = ground (arith, add-mul a b c)
mul-add (negsuc a) b c h k l = ground arith
mul-add a (negsuc b) c h k l = ground arith
mul-add a b (negsuc c) h k l = ground arith

div-IsNonneg : (a b : ℤ) → IsNonneg fixed a → IsPos fixed b → IsNonneg fixed (fixed.div a b)
div-IsNonneg (pos a) (pos b) h k = ground arith
div-IsNonneg (negsuc a) b h k = ground arith
div-IsNonneg a (negsuc b) h k = ground arith

-- n / c grows with n, and with sums by at least the quotients.
quotient_mono : (m n c : ℕ) → 0 < c → m ≤ n → m / c ≤ n / c
quotient_mono m n c pos_c h = (le-div_iff_mul-le pos_c).1 (omega (arith, div-mul-le_self m c))

quotient_add : (m n c : ℕ) → 0 < c → m / c + n / c ≤ (m + n) / c
quotient_add m n c pos_c =
    (le-div_iff_mul-le pos_c).1
      (omega (arith, add-mul (m / c) (n / c) c, div-mul-le_self m c, div-mul-le_self n c))

div_mono :
    (a b c : ℤ)
    → IsNonneg fixed a
    → IsPos fixed c
    → Le fixed a b
    → Le fixed (fixed.div a c) (fixed.div b c)
div_mono (pos a) (pos b) (pos c) h k l = ground (arith, quotient_mono (a * one) (b * one) c)
div_mono (negsuc a) b c h k l = ground arith
div_mono a (negsuc b) c h k l = ground arith
div_mono a b (negsuc c) h k l = ground arith

div-add :
    (a b c : ℤ)
    → IsNonneg fixed a
    → IsNonneg fixed b
    → IsPos fixed c
    → Le fixed (fixed.add (fixed.div a c) (fixed.div b c)) (fixed.div (fixed.add a b) c)
unfolding plus
div-add (pos a) (pos b) (pos c) h k l =
    ground (arith, add-mul a b one, quotient_add (a * one) (b * one) c)
div-add (negsuc a) b c h k l = ground arith
div-add a (negsuc b) c h k l = ground arith
div-add a b (negsuc c) h k l = ground arith

div-mul : (a b : ℤ) → IsNonneg fixed a → IsPos fixed b → Le fixed (fixed.mul (fixed.div a b) b) a
div-mul (pos a) (pos b) h k = ground (arith, div-mul-le_self (a * one) b)
div-mul (negsuc a) b h k = ground arith
div-mul a (negsuc b) h k = ground arith

mul-div : (a b : ℤ) → IsNonneg fixed a → IsPos fixed b → Le fixed (fixed.div (fixed.mul a b) b) a
mul-div (pos a) (pos b) h k =
    ground (arith, div-le_of_le-mul b {m = a * b / one * one} {n = a} (omega (arith, mul_comm a b)))
mul-div (negsuc a) b h k = ground arith
mul-div a (negsuc b) h k = ground arith

round-IsNonneg : (a : ℤ) → IsNonneg fixed a → IsNonneg fixed (fixed.round a)
round-IsNonneg (pos a) h = ground arith
round-IsNonneg (negsuc a) h = ground arith

round_small :
    (a : ℤ)
    → IsNonneg fixed a
    → Le fixed a (fixed.decimal 1 0)
    → Le fixed (fixed.round a) (fixed.decimal 1 0)
round_small (pos a) h k = ground arith
round_small (negsuc a) h k = ground arith

round_double : (a : ℤ) → Le fixed (fixed.decimal 1 0) a → Le fixed (fixed.round a) (fixed.add a a)
unfolding plus
round_double (pos a) h = ground arith
round_double (negsuc a) h = ground arith

decimal-IsNonneg : (m k : ℕ) → IsNonneg fixed (fixed.decimal m k)
decimal-IsNonneg m k = ground arith

two_fifths : Le fixed (fixed.add (fixed.decimal 20 2) (fixed.decimal 20 2)) (fixed.decimal 1 0)
unfolding plus
two_fifths = refl

pub fixed-IsOrdered : IsOrdered fixed
fixed-IsOrdered = record {
  le_trans = le_trans;
  le_total = le_total;
  lt-eq-not-le = lt-eq-not-le;
  add_mono = add_mono;
  mul_one = mul_one;
  one_mul = one_mul;
  mul-IsNonneg = mul-IsNonneg;
  square-IsNonneg = square-IsNonneg;
  mul_mono = mul_mono;
  le-mul_self = le-mul_self;
  mul-add = mul-add;
  div-IsNonneg = div-IsNonneg;
  div_mono = div_mono;
  div-add = div-add;
  div-mul = div-mul;
  mul-div = mul-div;
  round-IsNonneg = round-IsNonneg;
  round_small = round_small;
  round_double = round_double;
  decimal-IsNonneg = decimal-IsNonneg;
  one-le-ten = refl;
  small-le-one = refl;
  ten_pos = refl;
  two_fifths = two_fifths;
}

-- A hundred dollars at 40 cents.
kelly_size-cost_example :
    IsNonneg fixed (kelly_size fixed (pos 400000) (pos 100000000))
    × Le fixed
        (fixed.mul (kelly_size fixed (pos 400000) (pos 100000000)) (pos 400000))
        (pos 100000000)
kelly_size-cost_example =
    kelly_size-cost fixed fixed-IsExact fixed-IsOrdered (pos 400000) (pos 100000000) refl refl
