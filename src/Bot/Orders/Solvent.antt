-- ===== src/Bot/Orders/Solvent.antt =====
-- src/bot/OrderGateway.cpp: what the paper gateway owes, and what each of its calls does to it.
use polymarket_tickscope.Base.{◌≡◌, sym, ap, subst, ◌∙◌, Bool-cases, inl, inr, Option-cases}
use polymarket_tickscope.Base.Text.{Text, text_eq}
use polymarket_tickscope.Base.Dict.{find}
use polymarket_tickscope.Base.Dict.Values.{Values, assign-Values, erase-Values}
use polymarket_tickscope.Base.Double.{Double}
use polymarket_tickscope.Base.Double.Exact.{IsExact, add_left_comm, add_right_comm}
use polymarket_tickscope.Base.Double.Ordered.{
  Le, IsNonneg, IsOrdered, add_mono_both, add-IsNonneg, le_cancel,
}
use polymarket_tickscope.Bot.Orders.{
  Position, Env, PaperGateway, power, dynamic_fee_rate, open_paper, buy, close, sell,
}

module _ (num : Double) where
  open num use {F, add}

  abbrev pub Sized : Position F → Type 0
  Sized pos = IsNonneg num pos.shares × IsNonneg num pos.entry_price

  -- The fees are no credit, cash and the fees paid are together at least zero, and no position is
  -- negative.
  pub record IsSolvent (g : PaperGateway F) : Type 0 where
    pub fees : IsNonneg num g.total_fees
    pub debt : IsNonneg num (add g.capital g.total_fees)
    pub sized : Values Sized g.positions

module _ (num : Double) (exact : IsExact num) (ordered : IsOrdered num) where
  open num use {F, decimal, add, sub, mul}
  open exact use {add_comm, add_assoc, zero-add, sub-add}
  open ordered use {one_mul, mul-IsNonneg, square-IsNonneg, decimal-IsNonneg}

  pub dynamic_fee_rate-IsNonneg : (px : F) → IsNonneg num (dynamic_fee_rate num px)
  unfolding dynamic_fee_rate power
  dynamic_fee_rate-IsNonneg px =
      let p = mul px (sub (decimal 1 0) px) in
      mul-IsNonneg (decimal 25 2) (mul (mul (decimal 1 0) p) p) (decimal-IsNonneg 25 2)
        (rw (one_mul p) (square-IsNonneg p))

  pub open_paper-IsSolvent :
      (initial : F) → IsNonneg num initial → IsSolvent num (open_paper num initial)
  unfolding open_paper
  open_paper-IsSolvent initial h = record {
    fees = decimal-IsNonneg 0 0;
    debt = rw (add_comm initial (decimal 0 0), zero-add initial) h;
    sized = tt;
  }

  -- Cash at least the cost is short by the fee at most.
  buy_debt :
      (cash cost fee fees : F)
      → Le num cost cash
      → IsNonneg num fees
      → IsNonneg num (add (sub cash (add cost fee)) (add fees fee))
  buy_debt cash cost fee fees h k =
      le_cancel num exact ordered (decimal 0 0) (add (sub cash (add cost fee)) (add fees fee))
        (add cost fee)
        (rw
          (
            zero-add (add cost fee),
            add_right_comm num exact (sub cash (add cost fee)) (add fees fee) (add cost fee),
            sub-add cash (add cost fee),
          )
          (add_mono_both num exact ordered cost cash fee (add fees fee) h
            (rw (zero-add fee) at (ordered.add_mono (decimal 0 0) fees fee k))))

  -- A sale brings in its proceeds.
  sell_debt :
      (cash proceeds fee fees : F)
      → IsNonneg num (add cash fees)
      → IsNonneg num proceeds
      → IsNonneg num (add (add cash (sub proceeds fee)) (add fees fee))
  sell_debt cash proceeds fee fees h k =
      subst (IsNonneg num) (sym total) (add-IsNonneg num exact ordered (add cash fees) proceeds h k)
    where
      total : add (add cash (sub proceeds fee)) (add fees fee) ≡ add (add cash fees) proceeds
      total =
          add_assoc cash (sub proceeds fee) (add fees fee)
          ∙ ap (add cash) (
              add_left_comm num exact (sub proceeds fee) fees fee
              ∙ ap (add fees) (sub-add proceeds fee))
          ∙ sym (add_assoc cash fees proceeds)

  -- An order of no more than the cash at hand keeps the gateway solvent.
  pub buy-IsSolvent :
      (env : Env) (cid question : Text) (shares px yes_mid no_ask : F) (g : PaperGateway F)
      → IsNonneg num shares
      → IsNonneg num px
      → Le num (mul shares px) g.capital
      → IsSolvent num g
      → IsSolvent num (buy num env cid question shares px yes_mid no_ask g)
  unfolding buy
  buy-IsSolvent env cid question shares px yes_mid no_ask g h k cash s =
      let fee = mul (mul shares (dynamic_fee_rate num px)) px in
      let fee_nonneg : IsNonneg num fee =
        mul-IsNonneg (mul shares (dynamic_fee_rate num px)) px
          (mul-IsNonneg shares (dynamic_fee_rate num px) h (dynamic_fee_rate-IsNonneg px)) k in
      let fees = add-IsNonneg num exact ordered g.total_fees fee s.fees fee_nonneg in
      let debt = buy_debt g.capital (mul shares px) fee g.total_fees cash s.fees in
      let held = assign-Values (Sized num) text_eq cid _ g.positions (h, k) s.sized in
      elim (Bool-cases env.log_opens) [
        | inl o ↦ rw o record { fees = fees; debt = debt; sized = held }
        | inr o ↦ rw o record { fees = fees; debt = debt; sized = held }
      ]

  -- So does a sale, at any price from zero on.
  pub sell-IsSolvent :
      (env : Env) (cid : Text) (shares px no_bid : F) (g : PaperGateway F)
      → IsNonneg num shares
      → IsNonneg num px
      → IsSolvent num g
      → IsSolvent num (sell num env cid shares px no_bid g)
  unfolding sell close
  sell-IsSolvent env cid shares px no_bid g h k s =
      let fee = mul shares (dynamic_fee_rate num px) in
      let fee_nonneg : IsNonneg num fee =
        mul-IsNonneg shares (dynamic_fee_rate num px) h (dynamic_fee_rate-IsNonneg px) in
      let fees = add-IsNonneg num exact ordered g.total_fees fee s.fees fee_nonneg in
      let debt =
        sell_debt g.capital (mul shares px) fee g.total_fees s.debt (mul-IsNonneg shares px h k) in
      let held = erase-Values (Sized num) text_eq cid g.positions s.sized in
      elim (Option-cases (find text_eq cid g.positions)) [
        | inl e ↦ rw (e, sell) s
        | inr (pos, e) ↦ elim (Bool-cases env.log_opens) [
          | inl o ↦ rw (e, sell) (rw o record { fees = fees; debt = debt; sized = held })
          | inr o ↦ rw (e, sell) (rw o record { fees = fees; debt = debt; sized = held })
        ]
      ]
