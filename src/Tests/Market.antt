-- ===== src/Tests/Market.antt =====
-- The bot at concrete inputs, on the paper gateway.
use polymarket_tickscope.Base.{
  ◌≡◌, ◌≢◌, ◌⊎◌, refl, [], ◌∷◌, true, false, none, some, arith, if◌then◌else◌,
}
use polymarket_tickscope.Base.Text.{Text, codes, text_eq}
use polymarket_tickscope.Base.Dict.{find, Unique, contains}
use polymarket_tickscope.Bot.Books.{
  MarketBook, MarketMeta, BookState, empty_state, empty_market_book, add_market, get_book, get_meta,
  has, size,
}
use polymarket_tickscope.Bot.Books
use polymarket_tickscope.Bot.Books.Invariant.{
  empty_state-IsValid, add_market-IsValid, on_tick-IsValid,
}
use polymarket_tickscope.Bot.Books.Invariant
use polymarket_tickscope.Bot.Books.Ticks.{add_market-on_tick}
use polymarket_tickscope.Bot.Orders.{Position, Env, PaperGateway, paper_gateway}
use polymarket_tickscope.Bot.Strategy.{
  Params, default_params, on_tick, sweep_expired, ends_within, expiry_grace_s,
}
use polymarket_tickscope.Bot.Strategy.Opened.{IsSignal, IsBought, on_tick-IsBought}
use polymarket_tickscope.Bot.Strategy.Opened
use polymarket_tickscope.Bot.Strategy.Closed.{IsExit, IsSold, on_tick-IsSold}
use polymarket_tickscope.Bot.Strategy.Closed
use polymarket_tickscope.Bot.Strategy.Sweep.{sweep_expired-find}
use polymarket_tickscope.Tests.Fixed.{ℤ, pos, fixed, fixed-IsExact}
use polymarket_tickscope.Tests.Fixed.Ordered.{fixed-IsOrdered}

abbrev pub market : Text
market = codes "m"

abbrev pub rain : MarketMeta
rain = record {
  condition_id = market;
  question = codes "Rain?";
  yes_token_id = codes "y";
  no_token_id = codes "n";
  end_time_ms = 1000000;
}

abbrev books : BookState ℤ
books = add_market (empty_market_book fixed) rain empty_state

abbrev quoted : MarketBook ℤ
quoted = record {
  yes_bid = pos 20000;
  yes_ask = pos 30000;
  no_bid = pos 970000;
  no_ask = pos 980000;
}

abbrev env : Env
env = record { now_ms = 999000; log_opens = true }

abbrev held : Position ℤ
held = record {
  condition_id = market;
  question = codes "Rain?";
  shares = pos 10000000;
  entry_price = pos 900000;
  buy_fee = pos 0;
  entry_time_ms = 0;
}

-- A thousand in all, nine of it in one position.
abbrev gateway : PaperGateway ℤ
gateway = record {
  capital = pos 991000000;
  realised_pnl = pos 0;
  total_fees = pos 0;
  positions = (market, held) ∷ [];
  lines = [];
}

abbrev pub params : Params fixed
params = default_params fixed

gateway-Unique : Unique text_eq gateway.positions
unfolding find
gateway-Unique = (refl, tt)

books-IsValid : Invariant.IsValid books
books-IsValid = add_market-IsValid (empty_market_book fixed) rain empty_state empty_state-IsValid

-- Both legs quoted; a gateway with a thousand in cash and no position yet.
abbrev live_book : MarketBook ℤ
live_book = record {
  yes_bid = pos 380000;
  yes_ask = pos 390000;
  no_bid = pos 600000;
  no_ask = pos 610000;
}

abbrev live : BookState ℤ
live = record books { books = (market, live_book) ∷ [] }

abbrev early : Env
early = record { now_ms = 5000; log_opens = true }

abbrev fresh : PaperGateway ℤ
fresh = record gateway { capital = pos 1000000000; positions = [] }

live-quoted : get_book market live ≡ some live_book
unfolding get_book find text_eq
live-quoted = refl

fresh-free : find text_eq market fresh.positions ≡ none
unfolding find
fresh-free = refl

on_tick-IsBought_example :
    IsSignal fixed params early market live_book live fresh.capital
      × IsBought fixed params early market
          (Opened.price_of fixed params (pos 610000))
          fresh
          (on_tick fixed (paper_gateway fixed) params early market live fresh)
    ⊎ (¬ IsSignal fixed params early market live_book live fresh.capital)
      × (on_tick fixed (paper_gateway fixed) params early market live fresh ≡ fresh)
on_tick-IsBought_example =
    on_tick-IsBought fixed params fixed-IsExact fixed-IsOrdered early market live_book live fresh
      live-quoted fresh-free

abbrev near_end : BookState ℤ
near_end = record books { books = (market, quoted) ∷ [] }

near_end-quoted : get_book market near_end ≡ some quoted
unfolding get_book find text_eq
near_end-quoted = refl

gateway-held : find text_eq market gateway.positions ≡ some held
unfolding find text_eq
gateway-held = refl

on_tick-IsSold_example :
    IsExit fixed params env market quoted near_end
      × IsSold fixed params market held
          (Closed.price_of fixed params (pos 970000))
          gateway
          (on_tick fixed (paper_gateway fixed) params env market near_end gateway)
    ⊎ (¬ IsExit fixed params env market quoted near_end)
      × (on_tick fixed (paper_gateway fixed) params env market near_end gateway ≡ gateway)
on_tick-IsSold_example =
    on_tick-IsSold fixed params env market quoted near_end gateway held gateway-Unique
      near_end-quoted gateway-held

sweep_expired-find_example :
    find text_eq market
      (sweep_expired fixed (paper_gateway fixed) params env books gateway).1.positions
    ≡ (if ends_within expiry_grace_s env.now_ms (get_meta market books)
        then none
        else find text_eq market gateway.positions)
sweep_expired-find_example = sweep_expired-find fixed params env books gateway market gateway-Unique

add_market-on_tick_example :
    get_book market
      (Books.on_tick
        (codes "n")
        (pos 3)
        (pos 4)
        (Books.on_tick (codes "y") (pos 1) (pos 2) books).1).1
    ≡ some (record { yes_bid = pos 1; yes_ask = pos 2; no_bid = pos 3; no_ask = pos 4 })
add_market-on_tick_example =
    add_market-on_tick (empty_market_book fixed) rain empty_state (pos 1) (pos 2) (pos 3) (pos 4)
      untracked distinct
  where
    untracked : has market (empty_state {F = ℤ}) ≡ false
    untracked = unfold has contains find in refl

    distinct : codes "y" ≢ codes "n"
    distinct = ground arith
