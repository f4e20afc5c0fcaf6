-- ===== src/Bot/Strategy/Closed.antt =====
-- src/bot/StrategyEngine.hpp: a tick of a market with a position, on the paper gateway.
use polymarket_tickscope.Base.{
  ◌+◌, ◌≡◌, ◌≢◌, refl, ◌⊎◌, inl, inr, true, Bool-cases, none, some, arith,
}
use polymarket_tickscope.Base.Text.{Text, text_eq}
use polymarket_tickscope.Base.Dict.{find, contains, Unique, find-erase_self, find-erase_ne}
use polymarket_tickscope.Base.Double.{Double}
use polymarket_tickscope.Base.Double.Ordered.{Le, IsPos}
use polymarket_tickscope.Bot.Books.{MarketBook, BookState, no_mid, no_valid, get_book, get_meta}
use polymarket_tickscope.Bot.Orders.{
  Position, Env, PaperGateway, dynamic_fee_rate, close, paper_gateway,
}
use polymarket_tickscope.Bot.Orders.Sales.{sell_held}
use polymarket_tickscope.Bot.Strategy.{Params, expiry_grace_s, exit_px, leave, on_tick}
use polymarket_tickscope.Bot.Strategy.Entry.{EndsBy, ends_within-EndsBy}
use polymarket_tickscope.Bot.Strategy.Exits.{MayLeave, leave_iff}

module _ (num : Double) (params : Params num) where
  open num use {F, decimal, add, sub, mul, div, lt, le}

  -- NO has a positive bid below its ask, and in the middle has reached the exit price, or the market
  -- ends within half a minute or has ended.
  pub record IsExit (env : Env) (cid : Text) (bk : MarketBook F) (books : BookState F)
      : Type 0 where
    pub no_bid : IsPos num bk.no_bid
    pub no_ask : lt bk.no_bid bk.no_ask ≡ true
    pub reason :
        Le num params.exit_thresh (div (add bk.no_bid bk.no_ask) (decimal 2 0))
        ⊎ EndsBy (env.now_ms + 30000) (get_meta cid books)

  -- The bid less five basis points.
  abbrev pub price_of : F → F
  price_of bid = mul bid (sub (decimal 1 0) (decimal 5 4))

  -- The market has no position; all its shares were sold at this price, cash, fees and profit fit,
  -- and the other markets' positions are as before.
  pub record IsSold (cid : Text) (pos : Position F) (price : F) (old new : PaperGateway F)
      : Type 0 where
    pub fee : F
    pub rate : fee ≡ mul pos.shares (dynamic_fee_rate num price)
    pub gone : find text_eq cid new.positions ≡ none
    pub capital : new.capital ≡ add old.capital (sub (mul pos.shares price) fee)
    pub total_fees : new.total_fees ≡ add old.total_fees fee
    pub realised_pnl :
        new.realised_pnl
        ≡ add old.realised_pnl (
            sub (sub (sub (mul pos.shares price) (mul pos.shares pos.entry_price)) fee) pos.buy_fee)
    pub others : (c : Text) → cid ≢ c → find text_eq c new.positions ≡ find text_eq c old.positions

  close-IsSold :
      (env : Env) (cid : Text) (pos : Position F) (price no_bid : F) (g : PaperGateway F)
      → Unique text_eq g.positions
      → IsSold cid pos price g (close num env cid pos pos.shares price no_bid g)
  unfolding close
  close-IsSold env cid pos price no_bid g u = elim (Bool-cases env.log_opens) [
    | inl o ↦ rw o record {
      fee = _;
      rate = refl;
      gone = find-erase_self text_eq cid g.positions u;
      capital = refl;
      total_fees = refl;
      realised_pnl = refl;
      others = λ c ne. find-erase_ne text_eq cid c g.positions ne;
    }
    | inr o ↦ rw o record {
      fee = _;
      rate = refl;
      gone = find-erase_self text_eq cid g.positions u;
      capital = refl;
      total_fees = refl;
      realised_pnl = refl;
      others = λ c ne. find-erase_ne text_eq cid c g.positions ne;
    }
  ]

  on_tick_held :
      (env : Env) (cid : Text) (bk : MarketBook F) (books : BookState F) (g : PaperGateway F)
      (pos : Position F)
      → get_book cid books ≡ some bk
      → find text_eq cid g.positions ≡ some pos
      → on_tick num (paper_gateway num) params env cid books g
        ≡ leave num (paper_gateway num) params env cid bk books g
  unfolding on_tick contains
  on_tick_held env cid bk books g pos quoted held = rw (on_tick, quoted, contains, held) refl

  may-IsExit :
      (env : Env) (cid : Text) (bk : MarketBook F) (books : BookState F)
      → MayLeave num (paper_gateway num) params env cid bk books
      → IsExit env cid bk books
  unfolding no_valid no_mid
  may-IsExit env cid bk books may = record {
    no_bid = let q = may.no_quoted in ground arith;
    no_ask = let q = may.no_quoted in ground arith;
    reason =
        let r = may.reason in
        elim (Bool-cases (le params.exit_thresh (div (add bk.no_bid bk.no_ask) (decimal 2 0)))) [
          | inl reached ↦ inl reached
          | inr below ↦
              inr (
                (ends_within-EndsBy expiry_grace_s env.now_ms (get_meta cid books)).0
                  (ground arith))
        ];
  }

  exit-MayLeave :
      (env : Env) (cid : Text) (bk : MarketBook F) (books : BookState F)
      → IsExit env cid bk books
      → MayLeave num (paper_gateway num) params env cid bk books
  unfolding no_valid no_mid
  exit-MayLeave env cid bk books s = record {
    no_quoted = let a = s.no_bid in let b = s.no_ask in ground (arith, a, b);
    reason = elim s.reason [
      | inl reached ↦ ground arith
      | inr due ↦
          let d = (ends_within-EndsBy expiry_grace_s env.now_ms (get_meta cid books)).1 due in
          ground (arith, d)
    ];
  }

  -- On a paper gateway with at most one position for each market, a tick of a tracked market
  -- with a position closes it exactly where NO has a positive bid below its ask, and its
  -- middle has reached the exit price or a known end of the market is at most half a minute
  -- ahead. Then all shares are sold at the bid of NO less five basis points; cash goes up by
  -- the proceeds less the fee, the profit by the proceeds less cost and both fees, and the
  -- other markets stay. Otherwise nothing changes.
  pub on_tick-IsSold :
      (env : Env) (cid : Text) (bk : MarketBook F) (books : BookState F) (g : PaperGateway F)
      (pos : Position F)
      → Unique text_eq g.positions
      → get_book cid books ≡ some bk
      → find text_eq cid g.positions ≡ some pos
      → IsExit env cid bk books
          × IsSold cid pos
              (price_of bk.no_bid)
              g
              (on_tick num (paper_gateway num) params env cid books g)
        ⊎ (¬ IsExit env cid bk books) × (on_tick num (paper_gateway num) params env cid books g ≡ g)
  unfolding exit_px
  on_tick-IsSold env cid bk books g pos u quoted held =
      rw (on_tick_held env cid bk books g pos quoted held)
        (elim (leave_iff num (paper_gateway num) params env cid bk books g pos held) [
          | inr (stays, same) ↦ inr (λ s. stays (exit-MayLeave env cid bk books s), same)
          | inl (may, sold) ↦ inl (
            may-IsExit env cid bk books may,
            rw (sold, sell_held num env cid pos.shares (exit_px num bk) bk.no_bid g pos held)
                (close-IsSold env cid pos (exit_px num bk) bk.no_bid g u),
          )
        ])
