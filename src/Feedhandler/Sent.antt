-- ===== src/Feedhandler/Sent.antt =====
-- src/feedhandler/Feedhandler.cpp: a message of the exchange against what the exchange sent in it.
use polymarket_tickscope.Base.{
  ℕ, ◌≤◌, ◌≡◌, refl, List, [], ◌∷◌, map, Bool, true, false, Option, none, some, length, take_all,
}
use polymarket_tickscope.Base.Text.{Text, codes, text_eq}
use polymarket_tickscope.Base.Json.{Json, object}
use polymarket_tickscope.Base.Double.{Double}
use polymarket_tickscope.Core.{Tick}
use polymarket_tickscope.Tickerplant.{TickQueue}
use polymarket_tickscope.Feedhandler.{
  copy_asset_id, side_of, or_zero, change_tick, trade_tick, event_of, push_tick, push_changes,
  price_change, parse_and_push,
}

-- What the exchange says of one token.
pub record Said (F : Type 0) : Type 0 where
  pub asset_id : Text
  pub price : F
  pub size : F
  pub is_buy : Bool

pub record Change (F : Type 0) : Type 0 where
  pub said : Said F
  pub best_bid : F
  pub best_ask : F

-- A message of the exchange.
pub data Sent (F : Type 0) : Type 0 where
  changes_at : (timestamp : ℕ) → (changes : List (Change F)) → Sent F
  trade_at : (timestamp : ℕ) → (trade : Said F) → Sent F

-- The name of the side in a message.
abbrev pub side_name : Bool → Text
side_name true = codes "BUY"
side_name false = codes "SELL"

abbrev pub side_number : Bool → ℕ
side_number true = 0
side_number false = 1

module _ (num : Double) where
  open num use {F, decimal}

  abbrev pub tick_of_change : ℕ → Change F → Tick F
  tick_of_change timestamp c = record {
    timestamp = timestamp;
    price = c.said.price;
    size = c.said.size;
    best_bid = c.best_bid;
    best_ask = c.best_ask;
    side = side_number c.said.is_buy;
    event_type = 0;
    asset_id = c.said.asset_id;
  }

  abbrev pub tick_of_trade : ℕ → Said F → Tick F
  tick_of_trade timestamp t = record {
    timestamp = timestamp;
    price = t.price;
    size = t.size;
    best_bid = decimal 0 0;
    best_ask = decimal 0 0;
    side = side_number t.is_buy;
    event_type = 1;
    asset_id = t.asset_id;
  }

  -- The ticks that a message stands for.
  abbrev pub ticks_of : Sent F → List (Tick F)
  ticks_of (changes_at timestamp changes) = map (tick_of_change timestamp) changes
  ticks_of (trade_at timestamp t) = tick_of_trade timestamp t ∷ []

module _ {F : Type 0} (queue : TickQueue F) where
  open queue use {State, produce}

  -- The ticks offered to the queue one after the other; it takes them or drops them.
  unfoldable pub offer : List (Tick F) → State → State
  offer [] s = s
  offer (tick ∷ ticks) s = offer ticks (produce tick s).1

module _ (num : Double) (json : Json num.F) where
  open num use {F}
  open json use {
    Document, Object, iterate, type, doc_object, get_string, get_uint64_in_string,
    get_double_in_string, get_array,
  }

  -- An object that has the fields of what was said; the asset id fits the array with its NUL.
  pub record Says (obj : Object) (t : Said F) : Type 0 where
    pub asset_id : get_string (codes "asset_id") obj ≡ some t.asset_id
    pub price : get_double_in_string (codes "price") obj ≡ some t.price
    pub size : get_double_in_string (codes "size") obj ≡ some t.size
    pub side : get_string (codes "side") obj ≡ some (side_name t.is_buy)
    pub fits : length t.asset_id ≤ 79

  pub record Shows (obj : Object) (c : Change F) : Type 0 where
    pub says : Says obj c.said
    pub best_bid : get_double_in_string (codes "best_bid") obj ≡ some c.best_bid
    pub best_ask : get_double_in_string (codes "best_ask") obj ≡ some c.best_ask

  -- The array has one such object for each change, in order.
  abbrev pub AllShow : List (Option Object) → List (Change F) → Type 0
  AllShow [] [] = Unit
  AllShow [] (_ ∷ _) = ⊥
  AllShow (_ ∷ _) [] = ⊥
  AllShow (none ∷ _) (_ ∷ _) = ⊥
  AllShow (some obj ∷ objs) (c ∷ cs) = Shows obj c × AllShow objs cs

  -- The message is an object with this event type and time.
  pub record Encodes (message : Text) (event_type : Text) (timestamp : ℕ) : Type 0 where
    pub doc : Document
    pub obj : Object
    pub parsed : iterate message ≡ some doc
    pub is_object : type doc ≡ some object
    pub opened : doc_object doc ≡ some obj
    pub named : get_string (codes "event_type") obj ≡ some event_type
    pub timed : get_uint64_in_string (codes "timestamp") obj ≡ some timestamp

  -- The JSON text of what was sent.
  abbrev pub IsTextOf : Text → Sent F → Type 0
  IsTextOf message (changes_at timestamp changes) =
      (m : Encodes message (codes "price_change") timestamp) × (elements : List (Option Object))
      × (get_array (codes "price_changes") m.obj ≡ some elements)
      × AllShow elements changes
  IsTextOf message (trade_at timestamp t) =
      (m : Encodes message (codes "last_trade_price") timestamp) × Says m.obj t

  side_of_name : (is_buy : Bool) → side_of num json (side_name is_buy) ≡ side_number is_buy
  unfolding side_of text_eq
  side_of_name true = refl
  side_of_name false = refl

  change_tick-Shows :
      (timestamp : ℕ) (obj : Object) (c : Change F)
      → Shows obj c
      → change_tick num json timestamp obj ≡ some (tick_of_change num timestamp c)
  unfolding change_tick copy_asset_id or_zero
  change_tick-Shows timestamp obj c h =
      rw (h.says.asset_id, h.says.price, h.says.size, h.says.side, h.best_bid, h.best_ask)
        (rw (side_of_name c.said.is_buy, take_all 79 c.said.asset_id h.says.fits) refl)

  trade_tick-Says :
      (obj : Object) (timestamp : ℕ) (t : Said F)
      → get_uint64_in_string (codes "timestamp") obj ≡ some timestamp
      → Says obj t
      → trade_tick num json obj ≡ some (tick_of_trade num timestamp t)
  unfolding trade_tick copy_asset_id
  trade_tick-Says obj timestamp t time h =
      rw (time, h.asset_id, h.price, h.size, h.side)
        (rw (side_of_name t.is_buy, take_all 79 t.asset_id h.fits) refl)

  event_of-Encodes :
      (message event_type : Text) (timestamp : ℕ) (m : Encodes message event_type timestamp)
      → event_of num json message ≡ some (event_type, m.obj)
  unfolding event_of
  event_of-Encodes message event_type timestamp m =
      rw (m.parsed, m.is_object, m.opened, m.named) refl

  module _ (queue : TickQueue F) where
    open queue use {State}

    push_changes-Shows :
        (timestamp : ℕ) (elements : List (Option Object)) (changes : List (Change F)) (s : State)
        → AllShow elements changes
        → push_changes num json queue timestamp elements s
          ≡ some (offer queue (map (tick_of_change num timestamp) changes) s)
    unfolding push_changes push_tick offer
    push_changes-Shows timestamp [] [] s h = refl
    push_changes-Shows timestamp [] (_ ∷ _) s h = absurd h
    push_changes-Shows timestamp (_ ∷ _) [] s h = absurd h
    push_changes-Shows timestamp (none ∷ _) (_ ∷ _) s h = absurd h
    push_changes-Shows timestamp (some obj ∷ elements) (c ∷ changes) s h =
        rw (change_tick-Shows timestamp obj c h.0)
          (push_changes-Shows timestamp elements changes _ h.1)

    -- Where the message is the JSON text of price changes or of a trade, with each field
    -- under its key and asset ids of at most 79 bytes, handling it returns, and offers the
    -- queue exactly one tick for each of them, in order, with the time of the message, its
    -- price, size, side and asset id, and for a price change its best bid and best ask.
    pub parse_and_push-sent :
        (message : Text) (sent : Sent F) (s : State)
        → IsTextOf message sent
        → parse_and_push num json queue message s ≡ some (offer queue (ticks_of num sent) s)
    unfolding parse_and_push price_change text_eq push_tick offer
    parse_and_push-sent message (changes_at timestamp changes) s (m, elements, e, h) =
        rw (parse_and_push, event_of-Encodes message (codes "price_change") timestamp m)
          (rw (price_change, m.timed, e) (push_changes-Shows timestamp elements changes s h))
    parse_and_push-sent message (trade_at timestamp t) s (m, h) =
        rw (parse_and_push, event_of-Encodes message (codes "last_trade_price") timestamp m)
          (rw (trade_tick-Says m.obj timestamp t m.timed h) refl)
