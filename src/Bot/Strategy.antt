-- ===== src/Bot/Strategy.antt =====
-- src/bot/StrategyEngine.hpp and the constants of BotConfig.hpp: the ConvergenceNo strategy over
-- any gateway. Wall-clock times are arguments; the seconds of the configuration count in ms.
pub mod Entry
pub mod Exits
pub mod Sweep
pub mod Sizing
pub mod Solvency
pub mod Opened
pub mod Closed
pub mod Session
pub mod Threads
use polymarket_tickscope.Base.{
  ℕ, ◌+◌, ◌*◌, ◌-◌, List, [], ◌∷◌, Bool, true, false, not, ◌&&◌, ◌||◌, Option, none, some, ltb, leb,
  if◌then◌else◌, length,
}
use polymarket_tickscope.Base.Text.{Text, text_eq}
use polymarket_tickscope.Base.Dict.{find}
use polymarket_tickscope.Base.Double.{Double, clamp, max}
use polymarket_tickscope.Bot.Books.{
  MarketBook, MarketMeta, BookState, yes_mid, no_mid, yes_valid, no_valid, get_book, get_meta,
  empty_market_book,
}
use polymarket_tickscope.Bot.Orders.{Position, OrderGateway, Env}

-- MIN_REMAINING_S and EXPIRY_GRACE_S.
abbrev pub min_remaining_s : ℕ
min_remaining_s = 120

abbrev pub expiry_grace_s : ℕ
expiry_grace_s = 30

abbrev pub no_meta : MarketMeta
no_meta = record {
  condition_id = [];
  question = [];
  yes_token_id = [];
  no_token_id = [];
  end_time_ms = 0;
}

-- The metadata variable after `get_meta`: unchanged, that is default-constructed, if it fails.
abbrev pub meta_or_default : Option MarketMeta → MarketMeta
meta_or_default none = no_meta
meta_or_default (some meta) = meta

-- A market ends within `margin_s` seconds, and its end is known.
unfoldable pub ends_within : ℕ → ℕ → Option MarketMeta → Bool
ends_within margin_s now none = false
ends_within margin_s now (some meta) =
    ltb 0 meta.end_time_ms && leb meta.end_time_ms (now + margin_s * 1000)

module _ (num : Double) where
  open num use {F, decimal, add, sub, mul, div, round, lt, le}

  -- The constructor's parameters.
  pub record Params : Type 0 where
    pub threshold : F
    pub exit_thresh : F
    pub max_entry_ask : F

  abbrev pub default_params : Params
  default_params = record {
    threshold = decimal 40 2;
    exit_thresh = decimal 96 2;
    max_entry_ask = decimal 65 2;
  }

  abbrev pub slippage : F
  slippage = decimal 5 4

  abbrev pub kelly_min_sh : F
  kelly_min_sh = decimal 1 0

  abbrev pub kelly_win_rate : F
  kelly_win_rate = decimal 749 3

  -- KELLY_FRACTION is 0.5 and KELLY_MAX_PCT 0.20.
  unfoldable pub kelly_size : F → F → F
  kelly_size fill_price available =
      let b = div (sub (decimal 1 0) fill_price) fill_price in
      let edge = sub kelly_win_rate (div (sub (decimal 1 0) kelly_win_rate) b) in
      let f = clamp num (mul edge (decimal 5 1)) (decimal 0 0) (decimal 20 2) in
      let n = div (mul f available) fill_price in
      max num kelly_min_sh (div (round (mul n (decimal 10 0))) (decimal 10 0))

  unfoldable pub entry_px : MarketBook F → F
  entry_px bk = mul bk.no_ask (add (decimal 1 0) slippage)

  unfoldable pub exit_px : MarketBook F → F
  exit_px bk = mul bk.no_bid (sub (decimal 1 0) slippage)

  module _ (gateway : OrderGateway num) (params : Params) where
    open gateway use {State, buy, sell, has_position, available_capital, positions}

    -- The branch without a position: the guards in the code's order, then the order.
    pub enter : Env → Text → MarketBook F → BookState F → State → State
    enter env cid bk books g =
        let meta = get_meta cid books in
        let fill_px = entry_px bk in
        if not (yes_valid num bk) || not (no_valid num bk)
        then g
        else if lt params.threshold (yes_mid num bk)
        then g
        else if lt params.max_entry_ask bk.no_ask
        then g
        else if ends_within min_remaining_s env.now_ms meta
        then g
        else if lt (available_capital g) (mul fill_px kelly_min_sh)
        then g
        else buy env cid (meta_or_default meta).question (kelly_size fill_px (available_capital g))
            fill_px (yes_mid num bk) bk.no_ask g

    -- The branch with a position: out by price, or because the market is about to end.
    pub leave : Env → Text → MarketBook F → BookState F → State → State
    leave env cid bk books g =
        if not (no_valid num bk)
        then g
        else if le params.exit_thresh (no_mid num bk)
            || ends_within expiry_grace_s env.now_ms (get_meta cid books)
        then elim (find text_eq cid (positions g)) [
          | none ↦ g
          | some pos ↦ sell env cid pos.shares (exit_px bk) bk.no_bid g
        ]
        else g

    pub on_tick : Env → Text → BookState F → State → State
    unfolding enter leave
    on_tick env cid books g = elim (get_book cid books) [
      | none ↦ g
      | some bk ↦ if has_position cid g then leave env cid bk books g else enter env cid bk books g
    ]

    -- The price of a forced close: the current bid, or half the entry price without one.
    unfoldable pub sweep_px : Option (MarketBook F) → Position F → F
    sweep_px none pos = mul pos.entry_price (decimal 5 1)
    sweep_px (some bk) pos =
        if lt (decimal 0 0) bk.no_bid then exit_px bk else mul pos.entry_price (decimal 5 1)

    -- The markets of the snapshot that have ended or are about to.
    unfoldable pub expired_cids : ℕ → BookState F → List (Text × Position F) → List Text
    expired_cids now books [] = []
    expired_cids now books ((cid, pos) ∷ m) =
        let rest = expired_cids now books m in
        if ends_within expiry_grace_s now (get_meta cid books) then cid ∷ rest else rest

    -- The second loop of the sweep, over the markets collected; `snapshot` is the copy.
    pub close_all : Env → BookState F → List (Text × Position F) → List Text → State → State
    close_all env books snapshot [] g = g
    close_all env books snapshot (cid ∷ cids) g =
        close_all env books snapshot cids (elim (find text_eq cid snapshot) [
          | none ↦ g
          | some pos ↦ let px = sweep_px (get_book cid books) pos in sell env cid pos.shares px px g
        ])

    -- The number of positions closed, and the gateway after it.
    pub sweep_expired : Env → BookState F → State → ℕ × State
    unfolding expired_cids close_all
    sweep_expired env books g =
        let snapshot = positions g in
        let cids = expired_cids env.now_ms books snapshot in
        (length cids, close_all env books snapshot cids g)
