-- ===== src/Bot/Strategy/Solvency.antt =====
-- src/bot/StrategyEngine.hpp: what ticks and sweeps do to the debt of the paper gateway.
use polymarket_tickscope.Base.{
  ◌≡◌, List, [], ◌∷◌, true, Option, none, some, Bool-cases, Option-cases, inl, inr, arith,
}
use polymarket_tickscope.Base.Text.{Text, text_eq}
use polymarket_tickscope.Base.Dict.{find, contains}
use polymarket_tickscope.Base.Dict.Values.{Values, find-Values}
use polymarket_tickscope.Base.Double.{Double}
use polymarket_tickscope.Base.Double.Exact.{IsExact}
use polymarket_tickscope.Base.Double.Ordered.{
  IsNonneg, IsPos, IsOrdered, le_of_lt, le_of_not_lt, IsPos-mono, add_mono_left, sub-IsNonneg,
}
use polymarket_tickscope.Bot.Books.{MarketBook, BookState, no_valid, get_book}
use polymarket_tickscope.Bot.Orders.{Position, Env, PaperGateway, paper_gateway}
use polymarket_tickscope.Bot.Orders.Solvent.{Sized, IsSolvent, buy-IsSolvent, sell-IsSolvent}
use polymarket_tickscope.Bot.Strategy.{
  Params, slippage, entry_px, exit_px, kelly_size, sweep_px, expired_cids, close_all, sweep_expired,
  enter, leave, on_tick,
}
use polymarket_tickscope.Bot.Strategy.Entry.{enter_cases}
use polymarket_tickscope.Bot.Strategy.Exits.{leave_cases}
use polymarket_tickscope.Bot.Strategy.Sizing.{kelly_size-cost}

module _ (num : Double) (exact : IsExact num) (ordered : IsOrdered num) where
  open num use {F, decimal, add, sub, mul, lt}
  open exact use {add_comm, zero-add}
  open ordered use {le_trans, mul-IsNonneg, le-mul_self, decimal-IsNonneg, small-le-one}

  -- A quoted NO leg has a positive bid and ask.
  pub quoted_prices :
      (bk : MarketBook F) → no_valid num bk ≡ true → IsPos num bk.no_bid × IsPos num bk.no_ask
  unfolding no_valid
  quoted_prices bk h =
      let bid : IsPos num bk.no_bid = ground arith in
      let above : lt bk.no_bid bk.no_ask ≡ true = ground arith in
      (
        bid,
        IsPos-mono num exact ordered bk.no_bid bk.no_ask bid (le_of_lt num exact ordered _ _ above),
      )

  pub entry_px-IsPos : (bk : MarketBook F) → IsPos num bk.no_ask → IsPos num (entry_px num bk)
  unfolding entry_px
  entry_px-IsPos bk h =
      IsPos-mono num exact ordered bk.no_ask (mul bk.no_ask (add (decimal 1 0) (slippage num))) h (
        le-mul_self bk.no_ask (add (decimal 1 0) (slippage num)) (le_of_lt num exact ordered _ _ h)
          (rw (add_comm (decimal 1 0) (decimal 0 0), zero-add (decimal 1 0)) at
            (add_mono_left num exact ordered (decimal 0 0) (slippage num) (decimal 1 0)
              (decimal-IsNonneg 5 4))))

  exit_px-IsNonneg : (bk : MarketBook F) → IsPos num bk.no_bid → IsNonneg num (exit_px num bk)
  unfolding exit_px
  exit_px-IsNonneg bk h =
      mul-IsNonneg bk.no_bid (sub (decimal 1 0) (slippage num)) (le_of_lt num exact ordered _ _ h)
        (sub-IsNonneg num exact ordered (slippage num) (decimal 1 0) small-le-one)

  module _ (params : Params num) where
    enter-IsSolvent :
        (env : Env) (cid : Text) (bk : MarketBook F) (books : BookState F) (g : PaperGateway F)
        → IsSolvent num g
        → IsSolvent num (enter num (paper_gateway num) params env cid bk books g)
    enter-IsSolvent env cid bk books g s =
        elim (enter_cases num (paper_gateway num) params env cid bk books g) [
          | inl same ↦ rw same s
          | inr (may, bought) ↦
              let px = entry_px num bk in
              let pos : IsPos num px = entry_px-IsPos bk (quoted_prices bk may.no_quoted).1 in
              let (size, cost) =
                kelly_size-cost num exact ordered px g.capital pos
                  (le_of_not_lt num exact ordered _ _ may.funded) in
              rw bought (
                buy-IsSolvent num exact ordered env cid _ (kelly_size num px g.capital) px _ _ g
                  size (le_of_lt num exact ordered _ _ pos) cost s)
        ]

    leave-IsSolvent :
        (env : Env) (cid : Text) (bk : MarketBook F) (books : BookState F) (g : PaperGateway F)
        → IsSolvent num g
        → IsSolvent num (leave num (paper_gateway num) params env cid bk books g)
    leave-IsSolvent env cid bk books g s =
        elim (leave_cases num (paper_gateway num) params env cid bk books g) [
          | inl same ↦ rw same s
          | inr (pos, held, may, sold) ↦ rw sold (
              sell-IsSolvent num exact ordered env cid pos.shares (exit_px num bk) bk.no_bid g
                (find-Values (Sized num) text_eq cid pos g.positions held s.sized).0
                (exit_px-IsNonneg bk (quoted_prices bk may.no_quoted).0) s)
        ]

    pub on_tick-IsSolvent :
        (env : Env) (cid : Text) (books : BookState F) (g : PaperGateway F)
        → IsSolvent num g
        → IsSolvent num (on_tick num (paper_gateway num) params env cid books g)
    unfolding on_tick
    on_tick-IsSolvent env cid books g s = elim (Option-cases (get_book cid books)) [
      | inl e ↦ rw (e, on_tick) s
      | inr (bk, e) ↦ elim (Bool-cases (contains text_eq cid g.positions)) [
        | inl held ↦ rw (e, on_tick) (rw held (leave-IsSolvent env cid bk books g s))
        | inr new ↦ rw (e, on_tick) (rw new (enter-IsSolvent env cid bk books g s))
      ]
    ]

    sweep_px-IsNonneg :
        (book : Option (MarketBook F)) (pos : Position F)
        → Sized num pos
        → IsNonneg num (sweep_px num (paper_gateway num) params book pos)
    unfolding sweep_px
    sweep_px-IsNonneg none pos h =
        mul-IsNonneg pos.entry_price (decimal 5 1) h.1 (decimal-IsNonneg 5 1)
    sweep_px-IsNonneg (some bk) pos h = elim (Bool-cases (lt (decimal 0 0) bk.no_bid)) [
      | inl bid ↦ rw bid (exit_px-IsNonneg bk bid)
      | inr e ↦ rw e (mul-IsNonneg pos.entry_price (decimal 5 1) h.1 (decimal-IsNonneg 5 1))
    ]

    close_all-IsSolvent :
        (env : Env) (books : BookState F) (snapshot : List (Text × Position F)) (cids : List Text)
        (g : PaperGateway F)
        → Values (Sized num) snapshot
        → IsSolvent num g
        → IsSolvent num (close_all num (paper_gateway num) params env books snapshot cids g)
    unfolding close_all
    close_all-IsSolvent env books snapshot [] g h s = s
    close_all-IsSolvent env books snapshot (cid ∷ cids) g h s =
        elim (Option-cases (find text_eq cid snapshot)) [
          | inl e ↦ rw (e, close_all) (close_all-IsSolvent env books snapshot cids g h s)
          | inr (pos, e) ↦
              let px = sweep_px num (paper_gateway num) params (get_book cid books) pos in
              let sized : Sized num pos = find-Values (Sized num) text_eq cid pos snapshot e h in
              rw (e, close_all)
                (close_all-IsSolvent env books snapshot cids _ h (
                  sell-IsSolvent num exact ordered env cid pos.shares px px g sized.0
                    (sweep_px-IsNonneg (get_book cid books) pos sized) s))
        ]

    pub sweep_expired-IsSolvent :
        (env : Env) (books : BookState F) (g : PaperGateway F)
        → IsSolvent num g
        → IsSolvent num (sweep_expired num (paper_gateway num) params env books g).1
    unfolding sweep_expired
    sweep_expired-IsSolvent env books g s =
        close_all-IsSolvent env books g.positions
          (expired_cids num (paper_gateway num) params env.now_ms books g.positions) g s.sized s
