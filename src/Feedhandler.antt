-- ===== src/Feedhandler.antt =====
-- src/feedhandler/Feedhandler.cpp: from a message of the exchange to ticks on the queue.
-- simdjson is a parameter (`Json`), and so is the queue. The drop counters only feed the log.
pub mod Ticks
pub mod Work
pub mod Sent
use polymarket_tickscope.Base.{
  ℕ, List, [], ◌∷◌, Bool, true, false, Option, none, some, ite, take, ◌>>=◌,
}
use polymarket_tickscope.Base.Text.{Text, codes, text_eq}
use polymarket_tickscope.Base.Json.{Json, JsonType, array, object, other}
use polymarket_tickscope.Base.Double.{Double}
use polymarket_tickscope.Core.{Tick}
use polymarket_tickscope.Tickerplant.{TickQueue}

-- The 80-byte array keeps 79 bytes and the NUL.
unfoldable pub copy_asset_id : Text → Text
copy_asset_id sv = take 79 sv

module _ (num : Double) (json : Json num.F) where
  open num use {F, decimal}
  open json use {
    Document, Object, get_string, get_uint64_in_string, get_double_in_string, get_array,
  }

  -- A field that is read without a look at the error code keeps its default.
  unfoldable pub or_zero : Option F → F
  or_zero none = decimal 0 0
  or_zero (some x) = x

  unfoldable pub side_of : Text → ℕ
  side_of side = ite (text_eq side (codes "BUY")) 0 1

  -- One element of `price_changes`; `none` for `continue`.
  pub change_tick : ℕ → Object → Option (Tick F)
  change_tick timestamp_ms change = do
    asset_id ← get_string (codes "asset_id") change
    price ← get_double_in_string (codes "price") change
    size ← get_double_in_string (codes "size") change
    side ← get_string (codes "side") change
    some (record {
      timestamp = timestamp_ms;
      price = price;
      size = size;
      best_bid = or_zero (get_double_in_string (codes "best_bid") change);
      best_ask = or_zero (get_double_in_string (codes "best_ask") change);
      side = side_of side;
      event_type = 0;
      asset_id = copy_asset_id asset_id;
    })

  -- The single tick of a `last_trade_price`; `none` for an early return.
  pub trade_tick : Object → Option (Tick F)
  trade_tick obj = do
    timestamp ← get_uint64_in_string (codes "timestamp") obj
    asset_id ← get_string (codes "asset_id") obj
    price ← get_double_in_string (codes "price") obj
    size ← get_double_in_string (codes "size") obj
    side ← get_string (codes "side") obj
    some (record {
      timestamp = timestamp;
      price = price;
      size = size;
      best_bid = decimal 0 0;
      best_ask = decimal 0 0;
      side = side_of side;
      event_type = 1;
      asset_id = copy_asset_id asset_id;
    })

  -- From the payload to the object and its event type; every failure is an early return.
  pub event_of : Text → Option (Text × Object)
  event_of message = do
    doc ← json.iterate message
    doc_type ← json.type doc
    obj ← elim doc_type [
      | array ↦ none
      | object ↦ json.doc_object doc
      | other ↦ json.doc_object doc
    ]
    event_type ← get_string (codes "event_type") obj
    some (event_type, obj)

  module _ (queue : TickQueue F) where
    open queue use {State, produce}

    -- A full ring drops the tick.
    unfoldable pub push_tick : Option (Tick F) → State → State
    push_tick none s = s
    push_tick (some tick) s = (produce tick s).1

    -- The loop over `price_changes`. The function is noexcept, so an element that is no object
    -- ends the program: `none`.
    unfoldable pub push_changes : ℕ → List (Option Object) → State → Option State
    push_changes timestamp_ms [] s = some s
    push_changes timestamp_ms (none ∷ changes) s = none
    push_changes timestamp_ms (some change ∷ changes) s =
        push_changes timestamp_ms changes (push_tick (change_tick timestamp_ms change) s)

    pub price_change : Object → State → Option State
    price_change obj s = elim (get_uint64_in_string (codes "timestamp") obj) [
      | none ↦ some s
      | some timestamp_ms ↦ elim (get_array (codes "price_changes") obj) [
        | none ↦ some s
        | some changes ↦ push_changes timestamp_ms changes s
      ]
    ]

    pub parse_and_push : Text → State → Option State
    parse_and_push message s = elim (event_of message) [
      | none ↦ some s
      | some (event_type, obj) ↦
          ite (text_eq event_type (codes "price_change")) (price_change obj s) (
            ite (text_eq event_type (codes "last_trade_price"))
              (some (push_tick (trade_tick obj) s)) (some s))
    ]
