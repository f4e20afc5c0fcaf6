-- ===== src/Coinbase/Feed.antt =====
-- src/coinbase/CoinbaseFeed.cpp: what a message of the ticker channel does. simdjson, the clock and
-- whether a journal file opens are parameters. The connection (`run`, `stop`) is in Coinbase/Session.antt.
pub mod Quotes
use polymarket_tickscope.Base.{
  ℕ, ◌≡◌, ◌⊎◌, refl, List, [], ◌∷◌, Bool, true, false, ◌||◌, Option, none, some, Option-cases,
  Bool-cases, inl, inr, arith, ite, ltb, ◌==◌, ◌*◌, length, ◌>>=◌, if◌then◌else◌,
}
use polymarket_tickscope.Base.Text.{Text, codes, text_eq}
use polymarket_tickscope.Base.Json.{Json}
use polymarket_tickscope.Base.Double.{Double}
use polymarket_tickscope.Core.{BtcTick}
use polymarket_tickscope.Coinbase.Journal.{Setup, BtcJournal, write}

unfoldable pub max_payload : ℕ
max_payload = 4 * 1024

pub record CoinbaseFeed (F : Type 0) : Type 0 where
  pub mid : F
  pub journal : BtcJournal F

module _ (num : Double) (json : Json num.F) where
  open num use {F, decimal, add, div, le}

  -- The tick of a ticker message with both prices positive.
  pub quoted : ℕ → json.Object → Option (BtcTick F)
  quoted now_ms obj = do
    bid ← json.get_double_in_string (codes "best_bid") obj
    ask ← json.get_double_in_string (codes "best_ask") obj
    if le bid (decimal 0 0) || le ask (decimal 0 0)
        then none
        else some (record {
          timestamp = now_ms;
          bid = bid;
          ask = ask;
          mid = div (add bid ask) (decimal 2 0);
        })

  -- The tick of a payload; `none` for each of the early returns.
  pub ticker_tick : ℕ → Text → Option (BtcTick F)
  ticker_tick now_ms payload =
      if (length payload == 0) || ltb max_payload (length payload) then none else do
        doc ← json.iterate payload
        obj ← json.doc_object doc
        msg_type ← json.get_string (codes "type") obj
        ite (text_eq msg_type (codes "ticker")) (quoted now_ms obj) none

  unfoldable pub on_message : Setup → Bool → ℕ → Text → CoinbaseFeed F → CoinbaseFeed F
  on_message setup opens now_ms payload feed = elim (ticker_tick now_ms payload) [
    | none ↦ feed
    | some tick ↦ record { mid = tick.mid; journal = write setup opens tick feed.journal }
  ]
