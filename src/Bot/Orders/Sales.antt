-- ===== src/Bot/Orders/Sales.antt =====
-- What a sale does to the positions of the paper gateway.
use polymarket_tickscope.Base.{◌≡◌, ◌≢◌, refl, none, some, Option-cases, Bool-cases, inl, inr}
use polymarket_tickscope.Base.Text.{Text, text_eq}
use polymarket_tickscope.Base.Dict.{
  find, erase, Unique, find-erase_self, find-erase_ne, find-assign_ne, erase-Unique, assign-Unique,
}
use polymarket_tickscope.Base.Double.{Double}
use polymarket_tickscope.Bot.Orders.{Position, Env, PaperGateway, close, sell, buy, open_paper}

module _ (num : Double) where
  open num use {F}

  pub close-positions :
      (env : Env) (cid : Text) (pos : Position F) (shares fill_price no_bid : F)
      (g : PaperGateway F)
      → (close num env cid pos shares fill_price no_bid g).positions ≡ erase text_eq cid g.positions
  unfolding close
  close-positions env cid pos shares fill_price no_bid g = elim (Bool-cases env.log_opens) [
    | inl o ↦ rw o
    | inr o ↦ rw o
  ]

  pub sell_absent :
      (env : Env) (cid : Text) (shares fill_price no_bid : F) (g : PaperGateway F)
      → find text_eq cid g.positions ≡ none
      → sell num env cid shares fill_price no_bid g ≡ g
  unfolding sell
  sell_absent env cid shares fill_price no_bid g e = rw (e, sell)

  pub sell_held :
      (env : Env) (cid : Text) (shares fill_price no_bid : F) (g : PaperGateway F)
      (pos : Position F)
      → find text_eq cid g.positions ≡ some pos
      → sell num env cid shares fill_price no_bid g
        ≡ close num env cid pos shares fill_price no_bid g
  unfolding sell
  sell_held env cid shares fill_price no_bid g pos e = rw (e, sell)

  pub sell-find_self :
      (env : Env) (cid : Text) (shares fill_price no_bid : F) (g : PaperGateway F)
      → Unique text_eq g.positions
      → find text_eq cid (sell num env cid shares fill_price no_bid g).positions ≡ none
  sell-find_self env cid shares fill_price no_bid g u =
      elim (Option-cases (find text_eq cid g.positions)) [
        | inl e ↦ rw (sell_absent env cid shares fill_price no_bid g e) e
        | inr (pos, e) ↦
            rw
              (
                sell_held env cid shares fill_price no_bid g pos e,
                close-positions env cid pos shares fill_price no_bid g,
              )
              (find-erase_self text_eq cid g.positions u)
      ]

  -- On a paper gateway whose positions have distinct markets, a second sale of a market
  -- changes nothing, at any price and amount.
  pub sell_twice :
      (env env' : Env) (cid : Text) (shares fill_price no_bid shares' fill_price' no_bid' : F)
      (g : PaperGateway F)
      → Unique text_eq g.positions
      → sell num env' cid shares' fill_price' no_bid' (sell num env cid shares fill_price no_bid g)
        ≡ sell num env cid shares fill_price no_bid g
  sell_twice env env' cid shares fill_price no_bid shares' fill_price' no_bid' g u =
      sell_absent env' cid shares' fill_price' no_bid' _
        (sell-find_self env cid shares fill_price no_bid g u)

  -- A sale keeps the map well formed, and leaves every other market's position alone.
  pub sell-Unique :
      (env : Env) (cid : Text) (shares fill_price no_bid : F) (g : PaperGateway F)
      → Unique text_eq g.positions
      → Unique text_eq (sell num env cid shares fill_price no_bid g).positions
  sell-Unique env cid shares fill_price no_bid g u =
      elim (Option-cases (find text_eq cid g.positions)) [
        | inl e ↦ rw (sell_absent env cid shares fill_price no_bid g e) u
        | inr (pos, e) ↦
            rw
              (
                sell_held env cid shares fill_price no_bid g pos e,
                close-positions env cid pos shares fill_price no_bid g,
              )
              (erase-Unique text_eq cid g.positions u)
      ]

  pub sell-find_ne :
      (env : Env) (cid c : Text) (shares fill_price no_bid : F) (g : PaperGateway F)
      → cid ≢ c
      → find text_eq c (sell num env cid shares fill_price no_bid g).positions
        ≡ find text_eq c g.positions
  sell-find_ne env cid c shares fill_price no_bid g ne =
      elim (Option-cases (find text_eq cid g.positions)) [
        | inl e ↦ rw (sell_absent env cid shares fill_price no_bid g e) refl
        | inr (pos, e) ↦
            rw
              (
                sell_held env cid shares fill_price no_bid g pos e,
                close-positions env cid pos shares fill_price no_bid g,
              )
              (find-erase_ne text_eq cid c g.positions ne)
      ]

  -- A buy keeps the map well formed.
  pub buy-Unique :
      (env : Env) (cid question : Text) (shares fill_price yes_mid no_ask : F) (g : PaperGateway F)
      → Unique text_eq g.positions
      → Unique text_eq (buy num env cid question shares fill_price yes_mid no_ask g).positions
  unfolding buy
  buy-Unique env cid question shares fill_price yes_mid no_ask g u =
      elim (Bool-cases env.log_opens) [
        | inl o ↦ rw o (assign-Unique text_eq cid _ g.positions u)
        | inr o ↦ rw o (assign-Unique text_eq cid _ g.positions u)
      ]

  -- A purchase leaves the other markets' positions alone.
  pub buy-find_ne :
      (env : Env) (cid question : Text) (shares px yes_mid no_ask : F) (g : PaperGateway F)
      (c : Text)
      → cid ≢ c
      → find text_eq c (buy num env cid question shares px yes_mid no_ask g).positions
        ≡ find text_eq c g.positions
  unfolding buy
  buy-find_ne env cid question shares px yes_mid no_ask g c ne = elim (Bool-cases env.log_opens) [
    | inl o ↦ rw o (find-assign_ne text_eq cid c _ g.positions ne)
    | inr o ↦ rw o (find-assign_ne text_eq cid c _ g.positions ne)
  ]

  pub open_paper-Unique : (initial : F) → Unique text_eq (open_paper num initial).positions
  unfolding open_paper
  open_paper-Unique initial = tt
