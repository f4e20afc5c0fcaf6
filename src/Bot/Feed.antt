-- ===== src/Bot/Feed.antt =====
-- src/bot/FeedHandler.cpp: what a message does to the books, and when the strategy is called.
-- simdjson and the gateway are parameters. An element of an array that is no object makes the cast
-- throw; `Thrown` then holds what was done before it.
pub mod Calls
use polymarket_tickscope.Base.{
  ℕ, ◌*◌, List, [], ◌∷◌, Bool, true, false, ◌||◌, Option, none, some, ite, ltb, ◌==◌, length, ◌>>=◌,
  if◌then◌else◌,
}
use polymarket_tickscope.Base.Text.{Text, codes, text_eq}
use polymarket_tickscope.Base.Json.{Json, JsonType, array, object, other}
use polymarket_tickscope.Base.Double.{Double}
use polymarket_tickscope.Bot.Books.{BookState}
use polymarket_tickscope.Bot.Books
use polymarket_tickscope.Bot.Orders.{Env, OrderGateway}
use polymarket_tickscope.Bot.Strategy.{Params}
use polymarket_tickscope.Bot.Strategy

unfoldable pub max_payload : ℕ
max_payload = 64 * 1024

pub data Outcome (A : Type 0) : Type 0 where
  returned : A → Outcome A
  thrown : A → Outcome A

-- A quote of one token, as both kinds of message give it.
pub record Quote (F : Type 0) : Type 0 where
  pub asset_id : Text
  pub best_bid : F
  pub best_ask : F

module _ (num : Double) (json : Json num.F) (gateway : OrderGateway num) (params : Params num) where
  open num use {F, decimal, le}
  open json use {Object, get_string, get_double_in_string, get_array}
  open gateway use {State}

  -- A price that is read without a look at the error code keeps its 0.
  unfoldable pub or_zero : Option F → F
  or_zero none = decimal 0 0
  or_zero (some x) = x

  -- The books, and the strategy where the token belongs to a market; both sides of the quote are
  -- to be positive.
  pub apply_quote : Env → Quote F → BookState F × State → BookState F × State
  apply_quote env quote (books, g) =
      if le quote.best_bid (decimal 0 0) || le quote.best_ask (decimal 0 0)
      then (books, g)
      else (let (cid, books') = Books.on_tick quote.asset_id quote.best_bid quote.best_ask books in
          elim cid [
            | [] ↦ (books', g)
            | c ∷ cs ↦ (books', Strategy.on_tick num gateway params env (c ∷ cs) books' g)
          ])

  -- `price` of the first level; an empty side leaves 0. A level that is no object throws.
  unfoldable pub first_price : Option (List (Option Object)) → Option F
  first_price none = some (decimal 0 0)
  first_price (some []) = some (decimal 0 0)
  first_price (some (none ∷ _)) = none
  first_price (some (some level ∷ _)) = some (or_zero (get_double_in_string (codes "price") level))

  -- One book of a snapshot: `none` throws, `some none` is `continue`.
  pub snapshot_quote : Object → Option (Option (Quote F))
  snapshot_quote snap = elim (get_string (codes "asset_id") snap) [
    | none ↦ some none
    | some asset_id ↦ do
      bid ← first_price (get_array (codes "bids") snap)
      ask ← first_price (get_array (codes "asks") snap)
      some (some (record { asset_id = asset_id; best_bid = bid; best_ask = ask }))
  ]

  -- One element of `price_changes`.
  pub change_quote : Object → Option (Option (Quote F))
  change_quote change = elim (get_string (codes "asset_id") change) [
    | none ↦ some none
    | some asset_id ↦ some (
        some (record {
          asset_id = asset_id;
          best_bid = or_zero (get_double_in_string (codes "best_bid") change);
          best_ask = or_zero (get_double_in_string (codes "best_ask") change);
        }))
  ]

  -- The loop of both handlers, with what reads an element.
  pub apply_quotes :
      (Object → Option (Option (Quote F)))
      → Env
      → List (Option Object)
      → BookState F × State
      → Outcome (BookState F × State)
  apply_quotes read env [] now = returned now
  apply_quotes read env (none ∷ elems) now = thrown now
  apply_quotes read env (some elem ∷ elems) now = elim (read elem) [
    | none ↦ thrown now
    | some none ↦ apply_quotes read env elems now
    | some (some quote) ↦ apply_quotes read env elems (apply_quote env quote now)
  ]

  pub handle_book_snapshot :
      Env → json.Document → BookState F × State → Outcome (BookState F × State)
  handle_book_snapshot env doc now = elim (json.doc_array doc) [
    | none ↦ returned now
    | some arr ↦ apply_quotes snapshot_quote env arr now
  ]

  pub price_changes : json.Document → Option (List (Option Object))
  price_changes doc = do
    obj ← json.doc_object doc
    event_type ← get_string (codes "event_type") obj
    ite (text_eq event_type (codes "price_change")) (get_array (codes "price_changes") obj) none

  pub handle_price_change :
      Env → json.Document → BookState F × State → Outcome (BookState F × State)
  handle_price_change env doc now = elim (price_changes doc) [
    | none ↦ returned now
    | some changes ↦ apply_quotes change_quote env changes now
  ]

  -- Both handlers parse the payload again, with the same result.
  pub dispatch :
      Env → json.Document → JsonType → BookState F × State → Outcome (BookState F × State)
  dispatch env doc array now = handle_book_snapshot env doc now
  dispatch env doc object now = handle_price_change env doc now
  dispatch env doc other now = returned now

  pub on_message : Env → Text → BookState F × State → Outcome (BookState F × State)
  on_message env payload now =
      if (length payload == 0) || ltb max_payload (length payload)
      then returned now
      else elim (json.iterate payload) [
        | none ↦ returned now
        | some doc ↦ elim (json.type doc) [
          | none ↦ returned now
          | some dtype ↦ dispatch env doc dtype now
        ]
      ]
