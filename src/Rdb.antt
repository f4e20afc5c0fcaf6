-- ===== src/Rdb.antt =====
-- include/polymarket/rdb/OrderBook.hpp: the live top-of-book table of the tickerplant.
-- The hash map is an association list (Base/Dict.antt), the array of 4096 books a family, and
-- `next_idx` a `uint16_t`. An array access stays below 4096 by Rdb/Invariant.antt.
pub mod Invariant
pub mod Quotes
use polymarket_tickscope.Base.{
  ℕ, ◌+◌, ◌%◌, ◌^◌, List, [], ◌∷◌, Option, none, some, ite, ℕ_discrete, dec_le, update,
}
use polymarket_tickscope.Base.Text.{Text, text_eq, c_str}
use polymarket_tickscope.Base.Dict.{find, assign}
use polymarket_tickscope.Base.Double.{Double}
use polymarket_tickscope.Core.{Tick}

pub record MarketState (F : Type 0) : Type 0 where
  pub best_bid_price : F
  pub best_bid_size : F
  pub best_ask_price : F
  pub best_ask_size : F

pub record OrderBook (F : Type 0) : Type 0 where
  pub token_to_idx : List (Text × ℕ)
  pub books : ℕ → MarketState F
  pub next_idx : ℕ

abbrev pub max_tokens : ℕ
max_tokens = 4096

-- The key of a tick: a `string_view` of the array, which ends at the first NUL.
abbrev pub key_of : {F : Type 0} → Tick F → Text
key_of tick = c_str tick.asset_id

-- Side 0 is BID; any other value is taken for ASK.
unfoldable pub write_side : {F : Type 0} → Tick F → MarketState F → MarketState F
write_side tick ms =
    ite (ℕ_discrete tick.side 0)
      (record ms { best_bid_price = tick.price; best_bid_size = tick.size })
      (record ms { best_ask_price = tick.price; best_ask_size = tick.size })

-- A slot for a token seen for the first time; `none` when the table is full.
pub claim : {F : Type 0} → Text → OrderBook F → Option (ℕ × OrderBook F)
claim key b = ite (dec_le max_tokens b.next_idx) none (
    some (
      b.next_idx,
      record b {
        token_to_idx = assign text_eq key b.next_idx b.token_to_idx;
        next_idx = (b.next_idx + 1) % 2 ^ 16;
      },
    ))

pub write_book : {F : Type 0} → Tick F → ℕ → OrderBook F → OrderBook F
write_book tick idx b = record b { books = update b.books idx (write_side tick (b.books idx)) }

pub apply_tick : {F : Type 0} → Tick F → OrderBook F → OrderBook F
unfolding claim write_book
apply_tick tick b = elim (find text_eq (key_of tick) b.token_to_idx) [
  | some idx ↦ write_book tick idx b
  | none ↦ elim (claim (key_of tick) b) [ none ↦ b | some (idx, b') ↦ write_book tick idx b' ]
]

pub token_count : {F : Type 0} → OrderBook F → ℕ
token_count b = b.next_idx

unfoldable pub find_index : {F : Type 0} → Text → OrderBook F → Option ℕ
find_index token b = find text_eq token b.token_to_idx

pub state : {F : Type 0} → ℕ → OrderBook F → MarketState F
state idx b = b.books idx

module _ (num : Double) where
  open num use {F, decimal}

  abbrev pub empty_market : MarketState F
  empty_market = record {
    best_bid_price = decimal 0 0;
    best_bid_size = decimal 0 0;
    best_ask_price = decimal 0 0;
    best_ask_size = decimal 0 0;
  }

  unfoldable pub empty_book : OrderBook F
  empty_book = record { token_to_idx = []; books = λ _. empty_market; next_idx = 0 }

-- The drain loop's use of the book: one tick after another.
pub apply_ticks : {F : Type 0} → List (Tick F) → OrderBook F → OrderBook F
apply_ticks [] b = b
apply_ticks (t ∷ ts) b = apply_ticks ts (apply_tick t b)
