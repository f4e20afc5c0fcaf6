-- ===== src/Bot/Strategy/Opened.antt =====
-- src/bot/StrategyEngine.hpp: a tick of a market without a position, on the paper gateway.
use polymarket_tickscope.Base.{
  ◌+◌, ◌≡◌, ◌≢◌, refl, ◌⊎◌, inl, inr, true, false, Bool-cases, none, some, arith,
}
use polymarket_tickscope.Base.Text.{Text, text_eq}
use polymarket_tickscope.Base.Dict.{find, contains, find-assign_self, find-assign_ne}
use polymarket_tickscope.Base.Double.{Double}
use polymarket_tickscope.Base.Double.Exact.{IsExact}
use polymarket_tickscope.Base.Double.Ordered.{Le, IsPos, IsOrdered, le_of_lt, le_of_not_lt}
use polymarket_tickscope.Bot.Books.{
  MarketBook, BookState, yes_mid, yes_valid, no_valid, get_book, get_meta,
}
use polymarket_tickscope.Bot.Orders.{
  Position, Env, PaperGateway, dynamic_fee_rate, buy, paper_gateway,
}
use polymarket_tickscope.Bot.Strategy.{
  Params, min_remaining_s, kelly_size, entry_px, enter, on_tick,
}
use polymarket_tickscope.Bot.Strategy.Entry.{MayEnter, enter_iff, EndsAfter, ends_within-EndsAfter}
use polymarket_tickscope.Bot.Strategy.Sizing.{kelly_size-stake}
use polymarket_tickscope.Bot.Strategy.Solvency.{quoted_prices, entry_px-IsPos}

module _ (num : Double) (params : Params num) where
  open num use {F, decimal, add, sub, mul, div, lt}

  -- The ask with five basis points on top.
  abbrev pub price_of : F → F
  price_of ask = mul ask (add (decimal 1 0) (decimal 5 4))

  -- Both legs have a positive bid below the ask, YES is at most at the threshold in the middle, the
  -- ask of NO at most at its cap, no known end is within two minutes, and the cash buys one share.
  pub record IsSignal (env : Env) (cid : Text) (bk : MarketBook F) (books : BookState F) (cash : F)
      : Type 0 where
    pub yes_bid : IsPos num bk.yes_bid
    pub yes_ask : lt bk.yes_bid bk.yes_ask ≡ true
    pub no_bid : IsPos num bk.no_bid
    pub no_ask : lt bk.no_bid bk.no_ask ≡ true
    pub cheap : Le num (div (add bk.yes_bid bk.yes_ask) (decimal 2 0)) params.threshold
    pub capped : Le num bk.no_ask params.max_entry_ask
    pub time_left : EndsAfter (env.now_ms + 120000) (get_meta cid books)
    pub funded : Le num (price_of bk.no_ask) cash

  -- The market has a position, bought at this price just now; cash, fees and profit fit, and
  -- nothing else has changed. The position is one share, or more for at most two fifths of the cash.
  pub record IsBought (env : Env) (cid : Text) (price : F) (old new : PaperGateway F) : Type 0 where
    pub position : Position F
    pub held : find text_eq cid new.positions ≡ some position
    pub at_price : position.entry_price ≡ price
    pub at_time : position.entry_time_ms ≡ env.now_ms
    pub stake :
        (position.shares ≡ decimal 1 0)
        ⊎ (lt (decimal 1 0) position.shares ≡ true)
          × Le num
              (mul position.shares price)
              (add (mul (decimal 20 2) old.capital) (mul (decimal 20 2) old.capital))
    pub fee : position.buy_fee ≡ mul (mul position.shares (dynamic_fee_rate num price)) price
    pub capital : new.capital ≡ sub old.capital (add (mul position.shares price) position.buy_fee)
    pub total_fees : new.total_fees ≡ add old.total_fees position.buy_fee
    pub realised_pnl : new.realised_pnl ≡ old.realised_pnl
    pub others : (c : Text) → cid ≢ c → find text_eq c new.positions ≡ find text_eq c old.positions

  buy-IsBought :
      (env : Env) (cid question : Text) (shares price yes_mid no_ask : F) (g : PaperGateway F)
      → (shares ≡ decimal 1 0)
        ⊎ (lt (decimal 1 0) shares ≡ true)
          × Le num
              (mul shares price)
              (add (mul (decimal 20 2) g.capital) (mul (decimal 20 2) g.capital))
      → IsBought env cid price g (buy num env cid question shares price yes_mid no_ask g)
  unfolding buy
  buy-IsBought env cid question shares price yes_mid no_ask g stake =
      elim (Bool-cases env.log_opens) [
        | inl o ↦ rw o record {
          position = _;
          held = find-assign_self text_eq cid _ g.positions;
          at_price = refl;
          at_time = refl;
          stake = stake;
          fee = refl;
          capital = refl;
          total_fees = refl;
          realised_pnl = refl;
          others = λ c ne. find-assign_ne text_eq cid c _ g.positions ne;
        }
        | inr o ↦ rw o record {
          position = _;
          held = find-assign_self text_eq cid _ g.positions;
          at_price = refl;
          at_time = refl;
          stake = stake;
          fee = refl;
          capital = refl;
          total_fees = refl;
          realised_pnl = refl;
          others = λ c ne. find-assign_ne text_eq cid c _ g.positions ne;
        }
      ]

  on_tick_free :
      (env : Env) (cid : Text) (bk : MarketBook F) (books : BookState F) (g : PaperGateway F)
      → get_book cid books ≡ some bk
      → find text_eq cid g.positions ≡ none
      → on_tick num (paper_gateway num) params env cid books g
        ≡ enter num (paper_gateway num) params env cid bk books g
  unfolding on_tick contains
  on_tick_free env cid bk books g quoted free = rw (on_tick, quoted, contains, free) refl

  module _ (exact : IsExact num) (ordered : IsOrdered num) where
    open ordered use {le_trans, lt-eq-not-le, mul_one}

    not_lt_of_le : (a b : F) → Le num b a → lt a b ≡ false
    not_lt_of_le a b h = ground (arith, lt-eq-not-le a b)

    may-IsSignal :
        (env : Env) (cid : Text) (bk : MarketBook F) (books : BookState F) (g : PaperGateway F)
        → MayEnter num (paper_gateway num) params env cid bk books g
        → IsSignal env cid bk books g.capital
    unfolding yes_valid no_valid yes_mid entry_px
    may-IsSignal env cid bk books g may = record {
      yes_bid = let q = may.yes_quoted in ground arith;
      yes_ask = let q = may.yes_quoted in ground arith;
      no_bid = let q = may.no_quoted in ground arith;
      no_ask = let q = may.no_quoted in ground arith;
      cheap = le_of_not_lt num exact ordered _ _ may.cheap;
      capped = le_of_not_lt num exact ordered _ _ may.ask_capped;
      time_left =
          (ends_within-EndsAfter min_remaining_s env.now_ms (get_meta cid books)).0 may.time_left;
      funded = rw (mul_one (price_of bk.no_ask)) at (le_of_not_lt num exact ordered _ _ may.funded);
    }

    signal-MayEnter :
        (env : Env) (cid : Text) (bk : MarketBook F) (books : BookState F) (g : PaperGateway F)
        → IsSignal env cid bk books g.capital
        → MayEnter num (paper_gateway num) params env cid bk books g
    unfolding yes_valid no_valid yes_mid entry_px
    signal-MayEnter env cid bk books g s = record {
      yes_quoted = let a = s.yes_bid in let b = s.yes_ask in ground (arith, a, b);
      no_quoted = let a = s.no_bid in let b = s.no_ask in ground (arith, a, b);
      cheap = not_lt_of_le _ _ s.cheap;
      ask_capped = not_lt_of_le _ _ s.capped;
      time_left =
          (ends_within-EndsAfter min_remaining_s env.now_ms (get_meta cid books)).1 s.time_left;
      funded = not_lt_of_le _ _ (rw (mul_one (price_of bk.no_ask)) s.funded);
    }

    -- With exact sums, and products and quotients that are exact or rounded down, a tick
    -- of a tracked market without a position on the paper gateway opens one exactly where
    -- both legs have a positive bid below the ask, the middle of YES is at most the
    -- threshold, the ask of NO at most its cap, no known end of the market is within two
    -- minutes, and the cash is at least the price, which is the ask of NO with five basis
    -- points on top. The position is bought at that price and has one share, or more that
    -- cost at most two fifths of the cash; cash goes down by cost and fee, the fees go up
    -- by the fee, and the profit and the other markets stay. Otherwise nothing changes.
    pub on_tick-IsBought :
        (env : Env) (cid : Text) (bk : MarketBook F) (books : BookState F) (g : PaperGateway F)
        → get_book cid books ≡ some bk
        → find text_eq cid g.positions ≡ none
        → IsSignal env cid bk books g.capital
            × IsBought env cid
                (price_of bk.no_ask)
                g
                (on_tick num (paper_gateway num) params env cid books g)
          ⊎ (¬ IsSignal env cid bk books g.capital)
            × (on_tick num (paper_gateway num) params env cid books g ≡ g)
    unfolding entry_px
    on_tick-IsBought env cid bk books g quoted free =
        let px = entry_px num bk in
        rw (on_tick_free env cid bk books g quoted free)
          (elim (enter_iff num (paper_gateway num) params env cid bk books g) [
            | inr (no_signal, same) ↦
                inr (λ s. no_signal (signal-MayEnter env cid bk books g s), same)
            | inl (may, bought) ↦
                let s = may-IsSignal env cid bk books g may in
                let pos : IsPos num px =
                  entry_px-IsPos num exact ordered bk
                    (quoted_prices num exact ordered bk may.no_quoted).1 in
                inl (
                  s,
                  rw bought (
                      buy-IsBought env cid _ (kelly_size num px g.capital) px _ _ g (
                        kelly_size-stake num exact ordered px g.capital pos
                          (le_trans _ _ _ (le_of_lt num exact ordered _ _ pos) s.funded))),
                )
          ])
