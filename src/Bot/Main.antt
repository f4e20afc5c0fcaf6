-- ===== src/Bot/Main.antt =====
-- src/bot/main.cpp: the command line, the start-up scan, and a round of the main loop. `atof` is a
-- parameter. The gateway is any that meets `OrderGateway`; `sent` is what ws.send was given. The
-- mutex around the tokens is held only to copy or extend them. Messages go to Bot/Feed.antt;
-- Bot/Main/Session.antt puts the parts together.
pub mod Subscribed
pub mod Arguments
pub mod Session
use polymarket_tickscope.Base.{
  ℕ, List, [], ◌∷◌, ◌++◌, Bool, true, false, Option, none, some, ite, if◌then◌else◌,
}
use polymarket_tickscope.Base.Text.{Text, codes, text_eq}
use polymarket_tickscope.Base.Double.{Double}
use polymarket_tickscope.Base.Json.{Json}
use polymarket_tickscope.Gateway.Subscription.{build_subscription_json}
use polymarket_tickscope.Bot.Books.{MarketBook, BookState, get_book, empty_state, empty_market_book}
use polymarket_tickscope.Bot.Orders.{Env, OrderGateway, Position}
use polymarket_tickscope.Bot.Strategy.{Params, sweep_expired}
use polymarket_tickscope.Bot.Discovery.{Calendar}
use polymarket_tickscope.Bot.Discovery.Pages.{Get}
use polymarket_tickscope.Bot.Discovery.Scan.{Scan, scan_all, tail_poll}

-- The same text as in src/gateway/WebSocketClient.cpp.
abbrev pub build_sub_json : List Text → Text
build_sub_json tokens = build_subscription_json tokens

module _ (num : Double) (atof : Text → num.F) where
  open num use {F, decimal, le}

  pub record CliArgs : Type 0 where
    pub capital : F
    pub threshold : F
    pub exit_thresh : F
    pub filter : Text
    pub live_mode : Bool

  -- How `parse_args` ends: it returns, or exits with a status.
  pub data Parsed : Type 0 where
    returned : (args : CliArgs) → Parsed
    exited : (status : ℕ) → Parsed

  abbrev pub no_args : CliArgs
  no_args = record {
    capital = decimal 0 0;
    threshold = decimal 40 2;
    exit_thresh = decimal 96 2;
    filter = codes "up or down";
    live_mode = false;
  }

  abbrev pub is_flag : Text → Text → Bool
  is_flag flag a = ite (text_eq a flag) true false

  -- A flag with a value, and what the value does.
  unfoldable pub with_value : Text → Text → CliArgs → Option CliArgs
  with_value a v args =
      if is_flag (codes "--capital") a
      then some (record args { capital = atof v })
      else if is_flag (codes "--threshold") a
      then some (record args { threshold = atof v })
      else if is_flag (codes "--exit") a
      then some (record args { exit_thresh = atof v })
      else if is_flag (codes "--filter") a
      then some (record args { filter = v })
      else none

  -- A flag without one, or the end of the program.
  unfoldable pub without_value : Text → CliArgs → Parsed
  without_value a args =
      if is_flag (codes "--live") a
      then returned (record args { live_mode = true })
      else if is_flag (codes "--help") a
      then exited 0
      else if is_flag (codes "-h") a
      then exited 0
      else exited 1

  -- The loop over the arguments after the program's name.
  unfoldable pub parse_from : List Text → CliArgs → Parsed
  parse_from [] args = if le args.capital (decimal 0 0) then exited 1 else returned args
  parse_from (a ∷ []) args = elim (with_value a [] args) [
    | some _ ↦ exited 1
    | none ↦ elim (without_value a args) [
      | exited status ↦ exited status
      | returned next ↦ parse_from [] next
    ]
  ]
  parse_from (a ∷ v ∷ rest) args = elim (with_value a v args) [
    | some next ↦ parse_from rest next
    | none ↦ elim (without_value a args) [
      | exited status ↦ exited status
      | returned next ↦ parse_from (v ∷ rest) next
    ]
  ]

  unfoldable pub parse_args : List Text → Parsed
  parse_args args = parse_from args no_args

module _ (num : Double) (gateway : OrderGateway num) (params : Params num) where
  open num use {F, decimal, add, mul, lt}
  open gateway use {State, positions, available_capital}

  pub record Bot : Type 0 where
    pub books : BookState F
    pub account : State
    pub last_offset : ℕ
    pub subscribed_tokens : List Text
    pub sent : List Text

  -- The value of a position: at the bid, or at its cost without one.
  unfoldable pub position_value : BookState F → Text → Position F → F
  position_value books cid pos = elim (get_book cid books) [
    | none ↦ mul pos.shares pos.entry_price
    | some bk ↦
        if lt (decimal 0 0) bk.no_bid
        then mul pos.shares bk.no_bid
        else mul pos.shares pos.entry_price
  ]

  unfoldable pub mark_to_market : BookState F → List (Text × Position F) → F → F
  mark_to_market books [] mtm = mtm
  mark_to_market books ((cid, pos) ∷ rest) mtm =
      mark_to_market books rest (add mtm (position_value books cid pos))

  pub equity : BookState F → State → F
  equity books account =
      add (available_capital account) (mark_to_market books (positions account) (decimal 0 0))

  -- The callback on Open.
  unfoldable pub on_open : Bot → Bot
  on_open b = elim b.subscribed_tokens [
    | [] ↦ b
    | t ∷ ts ↦ record b { sent = b.sent ++ build_sub_json (t ∷ ts) ∷ [] }
  ]

  unfoldable pub add_tokens : List Text → Bot → Bot
  add_tokens [] b = b
  add_tokens (t ∷ ts) b = record b {
    subscribed_tokens = b.subscribed_tokens ++ (t ∷ ts);
    sent = b.sent ++ build_sub_json (t ∷ ts) ∷ [];
  }

  module _ (json : Json F) (calendar : Calendar) (filter : Text) where
    -- The start-up scan, on new books.
    unfoldable pub startup : (ℕ → Get) → (ℕ → ℕ → ℕ) → State → Option Bot
    startup get clock account =
        elim (scan_all (empty_market_book num) json calendar filter get clock 0 empty_state) [
          | none ↦ none
          | some c ↦ some (record {
            books = c.found_so_far.0;
            account = account;
            last_offset = c.last_offset;
            subscribed_tokens = c.found_so_far.1;
            sent = [];
          })
        ]

    -- A round of the main loop after its sleep, without the status line.
    unfoldable pub poll : (ℕ → Get) → (ℕ → ℕ → ℕ) → Env → Bot → Bot
    poll get clock env b =
        let found =
          tail_poll (empty_market_book num) json calendar filter get clock b.last_offset b.books in
        let subscribed =
          add_tokens found.1.1 (record b { books = found.1.0; last_offset = found.0 }) in
        record subscribed {
          account = (sweep_expired num gateway params env subscribed.books subscribed.account).1;
        }
