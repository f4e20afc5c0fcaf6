-- ===== src/Base/Double/Exact.antt =====
-- Laws of addition and subtraction where no rounding occurs, and what follows from them.
use mathlib.Core.Path.{◌≡◌, sym, ap, ◌∙◌}
use polymarket_tickscope.Base.Double.{Double}

-- The sums are exact: an abelian group. Integers, such as micro-dollars, meet it; `double` does as
-- long as nothing is rounded away.
pub record IsExact (num : Double) : Type 0 where
  pub add_comm : (a b : num.F) → num.add a b ≡ num.add b a
  pub add_assoc : (a b c : num.F) → num.add (num.add a b) c ≡ num.add a (num.add b c)
  pub zero-add : (a : num.F) → num.add (num.decimal 0 0) a ≡ a
  pub sub-add : (a b : num.F) → num.add (num.sub a b) b ≡ a
  pub add-sub : (a b : num.F) → num.sub (num.add a b) b ≡ a

module _ (num : Double) (exact : IsExact num) where
  open num use {F, add, sub}
  open exact use {add_comm, add_assoc, sub-add, add-sub}

  pub add_cancel : (a b c : F) → add a c ≡ add b c → a ≡ b
  add_cancel a b c e = sym (add-sub a c) ∙ ap (λ k. sub k c) e ∙ add-sub b c

  pub add_left_comm : (a b c : F) → add a (add b c) ≡ add b (add a c)
  add_left_comm a b c = sym (add_assoc a b c) ∙ ap (λ k. add k c) (add_comm a b) ∙ add_assoc b a c

  pub add_right_comm : (a b c : F) → add (add a b) c ≡ add (add a c) b
  add_right_comm a b c = add_assoc a b c ∙ ap (add a) (add_comm b c) ∙ sym (add_assoc a c b)

  -- Taking `b` out of cash and into the books changes nothing in total.
  pub sub-add_moved : (a b c : F) → add (sub a b) (add b c) ≡ add a c
  sub-add_moved a b c = sym (add_assoc (sub a b) b c) ∙ ap (λ k. add k c) (sub-add a b)

  -- Proceeds less cost, sell fee and buy fee, with the two costs put back.
  pub net-add_costs : (p c s b : F) → add (sub (sub (sub p c) s) b) (add c b) ≡ sub p s
  net-add_costs p c s b = add_cancel _ _ s (
      ap (λ k. add k s)
        (add_left_comm (sub (sub (sub p c) s) b) c b ∙ ap (add c) (sub-add (sub (sub p c) s) b))
      ∙ add_assoc c (sub (sub p c) s) s
      ∙ ap (add c) (sub-add (sub p c) s)
      ∙ add_comm c (sub p c)
      ∙ sub-add p c
      ∙ sym (sub-add p s))
