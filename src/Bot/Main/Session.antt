-- ===== src/Bot/Main/Session.antt =====
-- src/bot/main.cpp: `main` from its command line and environment to its end. The I/O thread's events
-- and the rounds of the main loop come one at a time here; Bot/Strategy/Threads.antt interleaves them
-- within. No code here catches an exception of the message handler: it ends the run.
pub mod Kept
pub mod Sound
pub mod Solvent
use polymarket_tickscope.Base.{
  ℕ, List, [], ◌∷◌, ◌||◌, Bool, Option, none, some, ◌>>=◌, if◌then◌else◌,
}
use polymarket_tickscope.Base.Text.{Text, codes}
use polymarket_tickscope.Base.Double.{Double}
use polymarket_tickscope.Base.Json.{Json}
use polymarket_tickscope.Gateway.Metadata.{is_empty}
use polymarket_tickscope.Bot.Books.{BookState}
use polymarket_tickscope.Bot.Orders.{
  Env, OrderGateway, paper_gateway, open_paper, live_gateway, open_live,
}
use polymarket_tickscope.Bot.Strategy.{Params}
use polymarket_tickscope.Bot.Feed.{Outcome, returned, thrown, on_message}
use polymarket_tickscope.Bot.Discovery.{Calendar, lower_filter}
use polymarket_tickscope.Bot.Discovery.Pages.{Get}
use polymarket_tickscope.Bot.Main.{CliArgs, parse_args, Bot, on_open, startup, poll}
use polymarket_tickscope.Bot.Main

unfoldable pub env_or_empty : Option Text → Text
env_or_empty none = []
env_or_empty (some v) = v

pub record Secrets : Type 0 where
  pub priv_key : Text
  pub api_key : Text
  pub api_secret : Text
  pub passphrase : Text

abbrev pub secrets_of : (Text → Option Text) → Secrets
secrets_of getenv = record {
  priv_key = env_or_empty (getenv (codes "BOT_PRIV_KEY"));
  api_key = env_or_empty (getenv (codes "BOT_API_KEY"));
  api_secret = env_or_empty (getenv (codes "BOT_API_SECRET"));
  passphrase = env_or_empty (getenv (codes "BOT_PASSPHRASE"));
}

unfoldable pub lacks_secret : Secrets → Bool
lacks_secret s =
    is_empty s.priv_key || is_empty s.api_key || is_empty s.api_secret || is_empty s.passphrase

-- On the I/O thread `opened` and `arrived`; on the main thread a round with what it is answered and
-- reads, and the wake-up that finds `g_running` down.
pub data Event : Type 0 where
  opened : Event
  arrived : (env : Env) (payload : Text) → Event
  polled : (get : ℕ → Get) (clock : ℕ → ℕ → ℕ) (env : Env) → Event
  stopped : Event

unfoldable pub and_then : {A : Type 0} → Outcome A → (A → Outcome A) → Outcome A
and_then (returned now) next = next now
and_then (thrown now) next = thrown now

module _ (num : Double) (json : Json num.F) (calendar : Calendar) where
  open num use {F, decimal}

  module _ (gateway : OrderGateway num) (params : Params num) where
    -- The bot with the books and the account that the message handler leaves.
    unfoldable pub resume :
        Bot num gateway params
        → Outcome (BookState F × gateway.State)
        → Outcome (Bot num gateway params)
    resume b (returned now) = returned (record b { books = now.0; account = now.1 })
    resume b (thrown now) = thrown (record b { books = now.0; account = now.1 })

    pub message : Env → Text → Bot num gateway params → Outcome (Bot num gateway params)
    message env payload b =
        resume b (on_message num json gateway params env payload (b.books, b.account))

    module _ (filter : Text) where
      unfoldable pub run : List Event → Bot num gateway params → Outcome (Bot num gateway params)
      run [] b = returned b
      run (opened ∷ events) b = run events (on_open num gateway params b)
      run (arrived env payload ∷ events) b =
          and_then (message env payload b) (λ now. run events now)
      run (polled get clock env ∷ events) b =
          run events (poll num gateway params json calendar filter get clock env b)
      run (stopped ∷ events) b = returned b

  module _ (atof : Text → F) where
    abbrev pub params_of : CliArgs num atof → Params num
    params_of args = record {
      threshold = args.threshold;
      exit_thresh = args.exit_thresh;
      max_entry_ask = decimal 65 2;
    }

    -- How `main` ends: with a status before the session, or with the session on a gateway.
    pub data Ended : Type 0 where
      exited : (status : ℕ) → Ended
      paper : (params : Params num) (now : Outcome (Bot num (paper_gateway num) params)) → Ended
      live : (params : Params num) (now : Outcome (Bot num (live_gateway num) params)) → Ended

    abbrev pub run_paper : (ℕ → Get) → (ℕ → ℕ → ℕ) → List Event → CliArgs num atof → Option Ended
    run_paper get clock events args = do
      b ←
          startup num (paper_gateway num) (params_of args) json calendar (lower_filter args.filter)
            get clock (open_paper num args.capital)
      some (
          paper (params_of args)
            (run (paper_gateway num) (params_of args) (lower_filter args.filter) events b))

    abbrev pub run_live : (ℕ → Get) → (ℕ → ℕ → ℕ) → List Event → CliArgs num atof → Option Ended
    run_live get clock events args = do
      b ←
          startup num (live_gateway num) (params_of args) json calendar (lower_filter args.filter)
            get clock (open_live num args.capital)
      some (
          live (params_of args)
            (run (live_gateway num) (params_of args) (lower_filter args.filter) events b))

    unfoldable pub main :
        (Text → Option Text) → (ℕ → Get) → (ℕ → ℕ → ℕ) → List Event → List Text → Option Ended
    main getenv get clock events argv = elim (parse_args num atof argv) [
      | Main.exited status ↦ some (exited status)
      | Main.returned args ↦
          if args.live_mode
          then (if lacks_secret (secrets_of getenv)
              then some (exited 1)
              else run_live get clock events args)
          else run_paper get clock events args
    ]
