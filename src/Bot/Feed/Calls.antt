-- ===== src/Bot/Feed/Calls.antt =====
-- src/bot/FeedHandler.cpp: what quotes and the strategy's calls keep, a message keeps, whether or
-- not its handler throws in the middle; so the books stay well formed.
use polymarket_tickscope.Base.{
  List, [], ◌∷◌, ◌||◌, Option, none, some, Option-cases, Bool-cases, inl, inr, ltb, ◌==◌, length,
}
use polymarket_tickscope.Base.Text.{Text}
use polymarket_tickscope.Base.Json.{Json, JsonType, array, object, other}
use polymarket_tickscope.Base.Double.{Double}
use polymarket_tickscope.Bot.Books.{BookState}
use polymarket_tickscope.Bot.Books
use polymarket_tickscope.Bot.Books.Invariant.{IsValid, on_tick-IsValid}
use polymarket_tickscope.Bot.Orders.{Env, OrderGateway}
use polymarket_tickscope.Bot.Strategy.{Params}
use polymarket_tickscope.Bot.Strategy
use polymarket_tickscope.Bot.Feed.{
  Outcome, returned, thrown, Quote, apply_quote, apply_quotes, handle_book_snapshot,
  handle_price_change, price_changes, dispatch, max_payload, on_message,
}

-- The state that a handler leaves behind.
abbrev pub left : {A : Type 0} → Outcome A → A
left (returned now) = now
left (thrown now) = now

module _ (num : Double) (json : Json num.F) (gateway : OrderGateway num) (params : Params num) where
  open num use {F, decimal, le}
  open json use {Object}
  open gateway use {State}

  -- What a change of the books by a quote keeps, and a call of the strategy.
  module _ (env : Env) (p : BookState F × State → Type 0)
      (quoted : (token : Text) (bid ask : F) (books : BookState F) (g : State)
        → p (books, g)
        → p ((Books.on_tick token bid ask books).1, g))
      (called : (cid : Text) (books : BookState F) (g : State)
        → p (books, g)
        → p (books, Strategy.on_tick num gateway params env cid books g)) where
    call-Kept :
        (cid : Text) (books : BookState F) (g : State)
        → p (books, g)
        → p (elim cid as (λ _. BookState F × State) [
          | [] ↦ (books, g)
          | c ∷ cs ↦ (books, Strategy.on_tick num gateway params env (c ∷ cs) books g)
        ])
    call-Kept [] books g h = h
    call-Kept (c ∷ cs) books g h = called (c ∷ cs) books g h

    apply_quote-Kept :
        (quote : Quote F) (now : BookState F × State)
        → p now
        → p (apply_quote num json gateway params env quote now)
    unfolding apply_quote
    apply_quote-Kept quote (books, g) h =
        elim (Bool-cases (le quote.best_bid (decimal 0 0) || le quote.best_ask (decimal 0 0))) [
          | inl e ↦ rw (e, apply_quote) h
          | inr e ↦
              rw (e, apply_quote)
                (let (cid, books') =
                    Books.on_tick quote.asset_id quote.best_bid quote.best_ask books in
                  call-Kept cid books' g
                    (quoted quote.asset_id quote.best_bid quote.best_ask books g h))
        ]

    apply_quotes-Kept :
        (read : Object → Option (Option (Quote F))) (elems : List (Option Object))
        (now : BookState F × State)
        → p now
        → p (left (apply_quotes num json gateway params read env elems now))
    unfolding apply_quotes
    apply_quotes-Kept read [] now h = h
    apply_quotes-Kept read (none ∷ elems) now h = h
    apply_quotes-Kept read (some elem ∷ elems) now h = elim (Option-cases (read elem)) [
      | inl e ↦ rw (e, apply_quotes) h
      | inr (none, e) ↦ rw (e, apply_quotes) (apply_quotes-Kept read elems now h)
      | inr (some quote, e) ↦
          rw (e, apply_quotes)
            (apply_quotes-Kept read elems (apply_quote num json gateway params env quote now)
              (apply_quote-Kept quote now h))
    ]

    dispatch-Kept :
        (doc : json.Document) (dtype : JsonType) (now : BookState F × State)
        → p now
        → p (left (dispatch num json gateway params env doc dtype now))
    unfolding dispatch handle_book_snapshot handle_price_change
    dispatch-Kept doc array now h = elim (Option-cases (json.doc_array doc)) [
      | inl e ↦ rw (e, handle_book_snapshot) h
      | inr (arr, e) ↦ rw (e, handle_book_snapshot) (apply_quotes-Kept _ arr now h)
    ]
    dispatch-Kept doc object now h =
        elim (Option-cases (price_changes num json gateway params doc)) [
          | inl e ↦ rw (e, handle_price_change) h
          | inr (changes, e) ↦ rw (e, handle_price_change) (apply_quotes-Kept _ changes now h)
        ]
    dispatch-Kept doc other now h = h

    pub on_message-Kept :
        (payload : Text) (now : BookState F × State)
        → p now
        → p (left (on_message num json gateway params env payload now))
    unfolding on_message
    on_message-Kept payload now h =
        elim (Bool-cases ((length payload == 0) || ltb max_payload (length payload))) [
          | inl b ↦ rw (b, on_message) h
          | inr b ↦ elim (Option-cases (json.iterate payload)) [
            | inl e ↦ rw (b, e, on_message) h
            | inr (doc, e) ↦ elim (Option-cases (json.type doc)) [
              | inl f ↦ rw (b, e, f, on_message) h
              | inr (dtype, f) ↦ rw (b, e, f, on_message) (dispatch-Kept doc dtype now h)
            ]
          ]
        ]

  -- Whatever the payload, and also where the handler throws in the middle, the message
  -- leaves valid books valid.
  pub on_message-IsValid :
      (env : Env) (payload : Text) (books : BookState F) (g : State)
      → IsValid books
      → IsValid (left (on_message num json gateway params env payload (books, g))).0
  on_message-IsValid env payload books g v =
      on_message-Kept env (λ now. IsValid now.0)
        (λ token bid ask books g v. on_tick-IsValid token bid ask books v) (λ cid books g v. v)
        payload (books, g) v
