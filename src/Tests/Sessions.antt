-- ===== src/Tests/Sessions.antt =====
-- The bot's main with a command line, a message and a round of the main loop.
use polymarket_tickscope.Base.{◌≡◌, refl, List, [], ◌∷◌, Option, none, some, ite}
use polymarket_tickscope.Base.Text.{Text, codes, text_eq}
use polymarket_tickscope.Base.Dict.{Unique}
use polymarket_tickscope.Base.Json.{Json}
use polymarket_tickscope.Bot.Books.Invariant.{IsValid}
use polymarket_tickscope.Bot.Orders.{paper_gateway}
use polymarket_tickscope.Bot.Orders.Ledger.{Balanced}
use polymarket_tickscope.Bot.Feed.{Outcome}
use polymarket_tickscope.Bot.Feed.Calls.{left}
use polymarket_tickscope.Bot.Main.{Bot, CliArgs, parse_args, no_args}
use polymarket_tickscope.Bot.Discovery.{lower_filter}
use polymarket_tickscope.Bot.Main
use polymarket_tickscope.Bot.Main.Subscribed.{IsSubscribed, IsWanted}
use polymarket_tickscope.Bot.Main.Session.{
  Event, opened, arrived, polled, stopped, params_of, paper, main,
}
use polymarket_tickscope.Bot.Main.Session.Sound.{main-Balanced}
use polymarket_tickscope.Bot.Main.Session.Solvent.{main-overdraft}
use polymarket_tickscope.Base.Double.Ordered.{IsNonneg}
use polymarket_tickscope.Tests.Fixed.Ordered.{fixed-IsOrdered}
use polymarket_tickscope.Tests.Fixed.{ℤ, pos, fixed, fixed-IsExact}
use polymarket_tickscope.Tests.Scans.{page, calendar, answers, noon, env}

-- A page of one market, and as a message one change of the price of its first token.
abbrev feed : Json ℤ
feed = record page {
  get_string = λ key _.
      ite (text_eq key (codes "event_type")) (some (codes "price_change"))
        (ite (text_eq key (codes "asset_id")) (some (codes "y")) (some key));
  get_double_in_string = λ _ _. some (pos 380000);
  get_array = λ _ _. some (some 0 ∷ []);
}

abbrev thousand : Text → ℤ
thousand _ = pos 1000000000

abbrev argv : List Text
argv = codes "--capital" ∷ codes "1000" ∷ []

abbrev args : CliArgs fixed thousand
args = record (no_args fixed thousand) { capital = pos 1000000000 }

argv-args : parse_args fixed thousand argv ≡ Main.returned args
unfolding parse_args Main.parse_from Main.with_value text_eq
argv-args = refl

abbrev no_env : Text → Option Text
no_env _ = none

abbrev events : List Event
events = opened ∷ arrived env (codes "x") ∷ polled answers noon env ∷ stopped ∷ []

main-Balanced_example :
    (now : Outcome (Bot fixed (paper_gateway fixed) (params_of fixed feed calendar thousand args)))
    × (main fixed feed calendar thousand no_env answers noon events argv
        ≡ some (paper (params_of fixed feed calendar thousand args) now))
    × IsValid (left now).books
    × IsSubscribed (left now).books (left now).subscribed_tokens
    × IsWanted (lower_filter args.filter) (left now).books
    × Balanced fixed (pos 1000000000) (left now).account
    × Unique text_eq (left now).account.positions
main-Balanced_example =
    main-Balanced fixed feed calendar thousand fixed-IsExact argv args argv-args refl no_env answers
      noon events

main-overdraft_example :
    (now : Outcome (Bot fixed (paper_gateway fixed) (params_of fixed feed calendar thousand args)))
    × (main fixed feed calendar thousand no_env answers noon events argv
        ≡ some (paper (params_of fixed feed calendar thousand args) now))
    × IsNonneg fixed (fixed.add (left now).account.capital (left now).account.total_fees)
main-overdraft_example =
    main-overdraft fixed feed calendar thousand fixed-IsExact fixed-IsOrdered argv args argv-args
      refl no_env answers noon events
