-- ===== src/Bot/Discovery/Pages.antt =====
-- src/bot/BotDiscovery.cpp: reading a page of the Gamma API, in the two ways of the code. A
-- request is a parameter: what the attempt of that number at that path answers, or `none`.
use polymarket_tickscope.Base.{ℕ, zero, suc, ◌+◌, List, [], ◌∷◌, ◌++◌, Option, none, some}
use polymarket_tickscope.Base.Text.{Text, codes, to_string}
use polymarket_tickscope.Base.Json.{Json}
use polymarket_tickscope.Base.Http.{Response, body_if_ok, markets_of}
use polymarket_tickscope.Bot.Books.{MarketBook, MarketMeta, BookState, add_market}
use polymarket_tickscope.Bot.Discovery.{Calendar, skipped, counted, found, examine, examine_alone}

unfoldable pub page_size : ℕ
page_size = 200

unfoldable pub max_attempts : ℕ
max_attempts = 3

abbrev pub Get : Type 0
Get = ℕ → Text → Option Response

unfoldable pub path_of : ℕ → Text
path_of offset =
    codes "/markets?closed=false&active=true&order=volume24hr&limit="
    ++ (to_string page_size ++ (codes "&offset=" ++ to_string offset))

-- One retry on a new connection, where there is no answer at all.
unfoldable pub get_or_reconnect : Get → Text → Option Response
get_or_reconnect get path = elim (get 0 path) [ none ↦ get 1 path | some res ↦ some res ]

-- The attempts of a worker, from number `n` on, up to an answer with status 200.
unfoldable pub attempt_from : Get → Text → ℕ → ℕ → Option Text
attempt_from get path n zero = none
attempt_from get path n (suc left) =
    let later = attempt_from get path (n + 1) left in
    elim (body_if_ok (get n path)) [ none ↦ later | some body ↦ some body ]

-- The books with the tokens to subscribe to.
abbrev pub Found : Type 0 → Type 0
Found F = BookState F × List Text

module _ {F : Type 0} (blank : MarketBook F) where
  unfoldable pub track : MarketMeta → Found F → Found F
  track meta (books, tokens) =
      (add_market blank meta books, tokens ++ (meta.yes_token_id ∷ meta.no_token_id ∷ []))

module _ {F : Type 0} (blank : MarketBook F) (json : Json F) (calendar : Calendar)
    (filter : Text) where
  open json use {Object}

  -- The loop of `fetch_gamma_page`, with its count; `clock i` is the time at element `i`.
  unfoldable pub read_page : (ℕ → ℕ) → ℕ → List (Option Object) → ℕ × Found F → ℕ × Found F
  read_page clock i [] now = now
  read_page clock i (m ∷ ms) (count, (books, tokens)) =
      elim (examine json calendar (clock i) filter books m) [
        | skipped ↦ read_page clock (i + 1) ms (count, (books, tokens))
        | counted ↦ read_page clock (i + 1) ms (count + 1, (books, tokens))
        | found meta ↦ read_page clock (i + 1) ms (count + 1, track blank meta (books, tokens))
      ]

  unfoldable pub fetch_gamma_page : Get → (ℕ → ℕ) → ℕ → Found F → ℕ × Found F
  fetch_gamma_page get clock offset now =
      elim (body_if_ok (get_or_reconnect get (path_of offset))) [
        | none ↦ (0, now)
        | some body ↦ elim (markets_of json body) [
          | none ↦ (0, now)
          | some markets ↦ read_page clock 0 markets (0, now)
        ]
      ]

  -- The loop of the worker.
  unfoldable pub collect :
      (ℕ → ℕ) → ℕ → List (Option Object) → ℕ × List MarketMeta → ℕ × List MarketMeta
  collect clock i [] now = now
  collect clock i (m ∷ ms) (count, metas) = elim (examine_alone json calendar (clock i) filter m) [
    | skipped ↦ collect clock (i + 1) ms (count, metas)
    | counted ↦ collect clock (i + 1) ms (count + 1, metas)
    | found meta ↦ collect clock (i + 1) ms (count + 1, metas ++ (meta ∷ []))
  ]

  -- The count, or `none` where the code answers -1, and the markets.
  unfoldable pub fetch_gamma_page_worker : Get → (ℕ → ℕ) → ℕ → Option ℕ × List MarketMeta
  fetch_gamma_page_worker get clock offset =
      elim (attempt_from get (path_of offset) 0 max_attempts) [
        | none ↦ (none, [])
        | some body ↦ elim (markets_of json body) [
          | none ↦ (none, [])
          | some markets ↦ let read = collect clock 0 markets (0, []) in (some read.0, read.1)
        ]
      ]
