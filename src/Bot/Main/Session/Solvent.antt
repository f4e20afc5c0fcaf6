-- ===== src/Bot/Main/Session/Solvent.antt =====
-- src/bot/main.cpp: how far a whole session on the paper gateway can be overdrawn.
use polymarket_tickscope.Base.{ℕ, ◌≡◌, List, false, Option, some}
use polymarket_tickscope.Base.Text.{Text}
use polymarket_tickscope.Base.Double.{Double}
use polymarket_tickscope.Base.Double.Exact.{IsExact}
use polymarket_tickscope.Base.Double.Ordered.{IsNonneg, IsOrdered}
use polymarket_tickscope.Base.Json.{Json}
use polymarket_tickscope.Bot.Orders.{paper_gateway}
use polymarket_tickscope.Bot.Orders.Solvent.{IsSolvent, open_paper-IsSolvent}
use polymarket_tickscope.Bot.Strategy.Solvency.{on_tick-IsSolvent, sweep_expired-IsSolvent}
use polymarket_tickscope.Bot.Feed.{Outcome}
use polymarket_tickscope.Bot.Feed.Calls.{left}
use polymarket_tickscope.Bot.Discovery.{Calendar}
use polymarket_tickscope.Bot.Discovery.Pages.{Get}
use polymarket_tickscope.Bot.Main.{Bot, CliArgs, parse_args}
use polymarket_tickscope.Bot.Main
use polymarket_tickscope.Bot.Main.Arguments.{parse_args-capital}
use polymarket_tickscope.Bot.Main.Session.{Event, paper, params_of, main}
use polymarket_tickscope.Bot.Main.Session.Kept.{main-Kept}

module _ (num : Double) (json : Json num.F) (calendar : Calendar) (atof : Text → num.F) where
  open num use {F, decimal, add}

  -- With exact sums, and products and quotients that are exact or rounded down, where the
  -- command line is accepted without --live, main starts and runs its session, whatever the
  -- environment, the discovery's answers, the clocks, the messages and their prices are and
  -- in whatever order they come: the cash may be below zero by the fees paid so far at most.
  pub main-overdraft :
      (exact : IsExact num) (ordered : IsOrdered num) (argv : List Text) (args : CliArgs num atof)
      → parse_args num atof argv ≡ Main.returned args
      → args.live_mode ≡ false
      → (getenv : Text → Option Text) (get : ℕ → Get) (clock : ℕ → ℕ → ℕ) (events : List Event)
      → (now : Outcome (Bot num (paper_gateway num) (params_of num json calendar atof args)))
        × (main num json calendar atof getenv get clock events argv
            ≡ some (paper (params_of num json calendar atof args) now))
        × IsNonneg num (add (left now).account.capital (left now).account.total_fees)
  main-overdraft exact ordered argv args parsed is_paper getenv get clock events =
      let params = params_of num json calendar atof args in
      let funded : IsNonneg num args.capital =
        ordered.le_total args.capital (decimal 0 0)
          (parse_args-capital num atof argv args parsed) in
      let (now, ran, _, _, _, solvent) =
        main-Kept num json calendar atof argv args parsed is_paper (IsSolvent num)
          (on_tick-IsSolvent num exact ordered params)
          (sweep_expired-IsSolvent num exact ordered params)
          (open_paper-IsSolvent num exact ordered args.capital funded) getenv get clock events in
      (now, ran, solvent.debt)
