-- ===== src/Bot/Main/Session/Sound.antt =====
-- src/bot/main.cpp: books, subscriptions and account over a whole session on the paper gateway.
use polymarket_tickscope.Base.{ℕ, ◌≡◌, List, false, Option, some}
use polymarket_tickscope.Base.Text.{Text, text_eq}
use polymarket_tickscope.Base.Dict.{Unique}
use polymarket_tickscope.Base.Double.{Double}
use polymarket_tickscope.Base.Double.Exact.{IsExact}
use polymarket_tickscope.Base.Json.{Json}
use polymarket_tickscope.Bot.Books.Invariant.{IsValid}
use polymarket_tickscope.Bot.Orders.{paper_gateway}
use polymarket_tickscope.Bot.Orders.Ledger.{Balanced}
use polymarket_tickscope.Bot.Strategy.Session.{
  Sound, sweep_expired-Sound, tick-Sound, open_paper-Sound,
}
use polymarket_tickscope.Bot.Feed.{Outcome}
use polymarket_tickscope.Bot.Feed.Calls.{left}
use polymarket_tickscope.Bot.Discovery.{Calendar, lower_filter}
use polymarket_tickscope.Bot.Discovery.Pages.{Get}
use polymarket_tickscope.Bot.Main.{
  Bot, CliArgs, parse_args, on_open, build_sub_json, add_tokens, startup, poll,
}
use polymarket_tickscope.Bot.Main
use polymarket_tickscope.Bot.Main.Subscribed.{IsSubscribed, IsWanted}
use polymarket_tickscope.Bot.Main.Session.Kept.{main-Kept}
use polymarket_tickscope.Bot.Main.Session.{Event, paper, params_of, main}

module _ (num : Double) (json : Json num.F) (calendar : Calendar) (atof : Text → num.F) where
  open num use {F}

  -- In exact arithmetic, where the command line is accepted without --live, main starts and
  -- runs its session, whatever the environment, the discovery's answers and the clocks are,
  -- and however connections, messages, rounds of the main loop and the stop follow one
  -- another: whether the session ends by itself or by an exception of the message handler,
  -- the books are valid, both tokens of every market in them are subscribed, its question
  -- contains the filter of the command line, ignoring case, and its end is known, cash and
  -- the cost of the open positions with their fees add up to the capital of the command line
  -- and the realised profit, and no market has two positions.
  pub main-Balanced :
      (exact : IsExact num) (argv : List Text) (args : CliArgs num atof)
      → parse_args num atof argv ≡ Main.returned args
      → args.live_mode ≡ false
      → (getenv : Text → Option Text) (get : ℕ → Get) (clock : ℕ → ℕ → ℕ) (events : List Event)
      → (now : Outcome (Bot num (paper_gateway num) (params_of num json calendar atof args)))
        × (main num json calendar atof getenv get clock events argv
            ≡ some (paper (params_of num json calendar atof args) now))
        × IsValid (left now).books
        × IsSubscribed (left now).books (left now).subscribed_tokens
        × IsWanted (lower_filter args.filter) (left now).books
        × Balanced num args.capital (left now).account
        × Unique text_eq (left now).account.positions
  main-Balanced exact argv args parsed is_paper getenv get clock events =
      let params = params_of num json calendar atof args in
      let (now, ran, valid, subscribed, wanted, sound) =
        main-Kept num json calendar atof argv args parsed is_paper (Sound num params args.capital)
          (tick-Sound num params exact args.capital)
          (sweep_expired-Sound num params exact args.capital)
          (open_paper-Sound num params exact args.capital) getenv get clock events in
      (now, ran, valid, subscribed, wanted, sound.balanced, sound.unique)
