-- ===== src/Bot/Orders/Ledger.antt =====
-- The paper gateway's books: cash, what the open positions cost, and the realised profit.
use polymarket_tickscope.Base.{
  ◌≡◌, refl, sym, ap, ◌∙◌, List, [], ◌∷◌, none, some, arith, Bool-cases, inl, inr,
}
use polymarket_tickscope.Base.Text.{Text, text_eq}
use polymarket_tickscope.Base.Dict.{find, assign, erase}
use polymarket_tickscope.Base.Double.{Double}
use polymarket_tickscope.Base.Double.Exact.{
  IsExact, add_cancel, add_left_comm, add_right_comm, sub-add_moved, net-add_costs,
}
use polymarket_tickscope.Bot.Orders.{
  Position, Env, PaperGateway, buy, close, sell, open_paper, dynamic_fee_rate,
}

module _ (num : Double) where
  open num use {F, decimal, add, sub, mul}

  -- What a position cost: its shares at the entry price, and the fee for buying them.
  unfoldable pub cost_of : Position F → F
  cost_of pos = add (mul pos.shares pos.entry_price) pos.buy_fee

  unfoldable pub committed : List (Text × Position F) → F
  committed [] = decimal 0 0
  committed ((cid, pos) ∷ m) = add (cost_of pos) (committed m)

  -- Cash and the cost of the open positions are the starting capital and the realised profit.
  unfoldable pub Balanced : F → PaperGateway F → Type 0
  Balanced initial g = add g.capital (committed g.positions) ≡ add initial g.realised_pnl

module _ (num : Double) (exact : IsExact num) where
  open num use {F, decimal, add, sub, mul}
  open exact use {add_comm, add_assoc, zero-add, sub-add}

  committed-assign :
      (cid : Text) (pos : Position F) (m : List (Text × Position F))
      → find text_eq cid m ≡ none
      → committed num (assign text_eq cid pos m) ≡ add (cost_of num pos) (committed num m)
  unfolding committed find assign
  committed-assign cid pos [] e = refl
  committed-assign cid pos ((j, w) ∷ m) e = ground (
    arith,
    committed-assign cid pos m,
    add_left_comm num exact (cost_of num w) (cost_of num pos) (committed num m),
  )

  committed-erase :
      (cid : Text) (pos : Position F) (m : List (Text × Position F))
      → find text_eq cid m ≡ some pos
      → add (cost_of num pos) (committed num (erase text_eq cid m)) ≡ committed num m
  unfolding committed find erase
  committed-erase cid pos [] e = cc
  committed-erase cid pos ((j, w) ∷ m) e = ground (
    arith,
    committed-erase cid pos m,
    add_left_comm num exact (cost_of num pos) (cost_of num w) (committed num (erase text_eq cid m)),
  )

  -- A new gateway is in balance.
  pub open_paper-Balanced : (initial : F) → Balanced num initial (open_paper num initial)
  unfolding open_paper Balanced committed
  open_paper-Balanced initial = refl

  -- A buy for a market without a position moves cash into the position, cost and fee, and
  -- realises nothing.
  pub buy-Balanced :
      (env : Env) (cid question : Text) (shares fill_price yes_mid no_ask : F) (initial : F)
      (g : PaperGateway F)
      → find text_eq cid g.positions ≡ none
      → Balanced num initial g
      → Balanced num initial (buy num env cid question shares fill_price yes_mid no_ask g)
  unfolding Balanced buy
  buy-Balanced env cid question shares fill_price yes_mid no_ask initial g new e =
      elim (Bool-cases env.log_opens) [ inl o ↦ rw o total | inr o ↦ rw o total ]
    where
      fee : F
      fee = mul (mul shares (dynamic_fee_rate num fill_price)) fill_price

      pos : Position F
      pos = record {
        condition_id = cid;
        question = question;
        shares = shares;
        entry_price = fill_price;
        buy_fee = fee;
        entry_time_ms = env.now_ms;
      }

      total :
          add
            (sub g.capital (add (mul shares fill_price) fee))
            (committed num (assign text_eq cid pos g.positions))
          ≡ add initial g.realised_pnl
      total = rw (committed-assign cid pos g.positions new) (
          unfold cost_of in
          (sub-add_moved num exact g.capital (add (mul shares fill_price) fee)
              (committed num g.positions)
            ∙ e))

  -- The sums behind a sale: proceeds less fee come into the cash, the position's cost leaves the
  -- books, and the difference is the profit.
  sale_sums :
      (cash rest cost fee proceeds sell_fee initial pnl : F)
      → add cash (add (add cost fee) rest) ≡ add initial pnl
      → add (add cash (sub proceeds sell_fee)) rest
        ≡ add initial (add pnl (sub (sub (sub proceeds cost) sell_fee) fee))
  sale_sums cash rest cost fee proceeds sell_fee initial pnl e = add_cancel num exact _ _ spent (
      add_right_comm num exact (add cash gain) rest spent
      ∙ ap (λ k. add k rest) (add_right_comm num exact cash gain spent)
      ∙ add_right_comm num exact (add cash spent) gain rest
      ∙ ap (λ k. add k gain) (add_assoc cash spent rest ∙ e)
      ∙ add_assoc initial pnl gain
      ∙ ap (λ k. add initial (add pnl k)) (sym (net-add_costs num exact proceeds cost sell_fee fee))
      ∙ ap (add initial) (sym (add_assoc pnl net spent))
      ∙ sym (add_assoc initial (add pnl net) spent))
    where
      spent : F
      spent = add cost fee

      gain : F
      gain = sub proceeds sell_fee

      net : F
      net = sub (sub (sub proceeds cost) sell_fee) fee

  -- A sale of all shares of a position keeps the balance, and takes the position out of the books.
  pub sell-Balanced :
      (env : Env) (cid : Text) (fill_price no_bid initial : F) (pos : Position F)
      (g : PaperGateway F)
      → find text_eq cid g.positions ≡ some pos
      → Balanced num initial g
      → Balanced num initial (sell num env cid pos.shares fill_price no_bid g)
  unfolding Balanced sell close
  sell-Balanced env cid fill_price no_bid initial pos g held e = elim (Bool-cases env.log_opens) [
    | inl o ↦ rw (held, sell) (rw o total)
    | inr o ↦ rw (held, sell) (rw o total)
  ]
    where
      proceeds : F
      proceeds = mul pos.shares fill_price

      sell_fee : F
      sell_fee = mul pos.shares (dynamic_fee_rate num fill_price)

      rest : F
      rest = committed num (erase text_eq cid g.positions)

      total :
          add (add g.capital (sub proceeds sell_fee)) rest
          ≡ add initial (
              add g.realised_pnl
                (sub (sub (sub proceeds (mul pos.shares pos.entry_price)) sell_fee) pos.buy_fee))
      total =
          sale_sums g.capital rest (mul pos.shares pos.entry_price) pos.buy_fee proceeds sell_fee
            initial g.realised_pnl
            (unfold cost_of in (ap (add g.capital) (committed-erase cid pos g.positions held) ∙ e))
