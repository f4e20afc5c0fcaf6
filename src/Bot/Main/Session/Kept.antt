-- ===== src/Bot/Main/Session/Kept.antt =====
-- src/bot/main.cpp: what a session of the bot keeps, of its books, its markets, its
-- subscriptions and its gateway.
use polymarket_tickscope.Base.{
  ℕ, ◌≡◌, refl, sym, subst, ◌∙◌, List, [], ◌∷◌, ◌++◌, false, Option, some,
}
use polymarket_tickscope.Base.Text.{Text}
use polymarket_tickscope.Base.Double.{Double}
use polymarket_tickscope.Base.Json.{Json}
use polymarket_tickscope.Bot.Books.{BookState, empty_market_book}
use polymarket_tickscope.Bot.Books
use polymarket_tickscope.Bot.Books.Invariant.{IsValid, on_tick-IsValid}
use polymarket_tickscope.Bot.Books.Metas.{on_tick-get_meta}
use polymarket_tickscope.Bot.Orders.{Env, OrderGateway, PaperGateway, paper_gateway, open_paper}
use polymarket_tickscope.Bot.Strategy.{Params, on_tick, sweep_expired}
use polymarket_tickscope.Bot.Feed.{Outcome, returned, thrown, on_message}
use polymarket_tickscope.Bot.Feed.Calls.{left, on_message-Kept}
use polymarket_tickscope.Bot.Discovery.{Calendar, lower_filter}
use polymarket_tickscope.Bot.Discovery.Pages.{Get}
use polymarket_tickscope.Bot.Discovery.Scan.{tail_poll}
use polymarket_tickscope.Bot.Main.{
  Bot, CliArgs, parse_args, on_open, build_sub_json, add_tokens, startup, poll,
}
use polymarket_tickscope.Bot.Main
use polymarket_tickscope.Bot.Main.Subscribed.{
  IsSubscribed, IsWanted, add_tokens_lem, poll-Tracked, startup-Tracked,
}
use polymarket_tickscope.Bot.Main.Session.{
  Event, opened, arrived, polled, stopped, and_then, resume, message, run, paper, params_of, main,
}

-- `inv` is what the strategy's calls keep of the gateway.
module _ (num : Double) (gateway : OrderGateway num) (params : Params num) (filter : Text)
    (inv : gateway.State → Type 0)
    (ticked : (env : Env) (cid : Text) (books : BookState num.F) (g : gateway.State)
      → inv g
      → inv (on_tick num gateway params env cid books g))
    (swept : (env : Env) (books : BookState num.F) (g : gateway.State)
      → inv g
      → inv (sweep_expired num gateway params env books g).1) where
  open num use {F}
  open gateway use {State}

  -- Books and account as they should be, with these tokens subscribed.
  abbrev pub Fine : List Text → BookState F × State → Type 0
  Fine tokens now = (IsValid now.0 × IsSubscribed now.0 tokens × IsWanted filter now.0) × inv now.1

  tick-Fine :
      (tokens : List Text) (token : Text) (bid ask : F) (books : BookState F) (g : State)
      → Fine tokens (books, g)
      → Fine tokens ((Books.on_tick token bid ask books).1, g)
  tick-Fine tokens token bid ask books g ((v, h, wanted), s) = (
    (
      on_tick-IsValid token bid ask books v,
      λ cid m e. h cid m (sym (on_tick-get_meta token cid bid ask books) ∙ e),
      λ cid m e. wanted cid m (sym (on_tick-get_meta token cid bid ask books) ∙ e),
    ),
    s,
  )

  module _ (json : Json F) (calendar : Calendar) where
    on_message-Fine :
        (env : Env) (payload : Text) (tokens : List Text) (now : BookState F × State)
        → Fine tokens now
        → Fine tokens (left (on_message num json gateway params env payload now))
    on_message-Fine env payload tokens =
        on_message-Kept num json gateway params env (Fine tokens) (tick-Fine tokens)
          (λ cid books g (v, s). (v, ticked env cid books g s)) payload

    -- A bot whose books, subscriptions and account are as they should be.
    abbrev pub IsFine : Bot num gateway params → Type 0
    IsFine b = Fine b.subscribed_tokens (b.books, b.account)

    resume-Fine :
        (b : Bot num gateway params) (now : Outcome (BookState F × State))
        → Fine b.subscribed_tokens (left now)
        → IsFine (left (resume num json calendar gateway params b now))
    unfolding resume
    resume-Fine b (returned now) h = h
    resume-Fine b (thrown now) h = h

    message-Fine :
        (env : Env) (payload : Text) (b : Bot num gateway params)
        → IsFine b
        → IsFine (left (message num json calendar gateway params env payload b))
    unfolding message
    message-Fine env payload b h =
        resume-Fine b (on_message num json gateway params env payload (b.books, b.account))
          (on_message-Fine env payload b.subscribed_tokens (b.books, b.account) h)

    and_then-Fine :
        (now : Outcome (Bot num gateway params))
        (next : Bot num gateway params → Outcome (Bot num gateway params))
        → IsFine (left now)
        → ((b : Bot num gateway params) → IsFine b → IsFine (left (next b)))
        → IsFine (left (and_then now next))
    unfolding and_then
    and_then-Fine (returned b) next h k = k b h
    and_then-Fine (thrown b) next h k = h

    sent-Fine :
        (tokens : List Text) (b : Bot num gateway params)
        → IsFine b
        → IsFine (elim tokens as (λ _. Bot num gateway params) [
          | [] ↦ b
          | t ∷ ts ↦ record b { sent = b.sent ++ build_sub_json (t ∷ ts) ∷ [] }
        ])
    sent-Fine [] b h = h
    sent-Fine (t ∷ ts) b h = h

    on_open-Fine : (b : Bot num gateway params) → IsFine b → IsFine (on_open num gateway params b)
    unfolding on_open
    on_open-Fine b h = sent-Fine b.subscribed_tokens b h

    poll-Fine :
        (get : ℕ → Get) (clock : ℕ → ℕ → ℕ) (env : Env) (b : Bot num gateway params)
        → IsFine b
        → IsFine (poll num gateway params json calendar filter get clock env b)
    unfolding poll
    poll-Fine get clock env b (h, s) =
        let found =
          tail_poll (empty_market_book num) json calendar filter get clock b.last_offset b.books in
        let old = record b { books = found.1.0; last_offset = found.0 } in
        let new = add_tokens num gateway params found.1.1 old in
        (
          poll-Tracked num gateway params json calendar filter get clock env b h,
          swept env new.books new.account
              (subst inv (sym (add_tokens_lem num gateway params found.1.1 old).2) s),
        )

    pub run-Fine :
        (events : List Event) (b : Bot num gateway params)
        → IsFine b
        → IsFine (left (run num json calendar gateway params filter events b))
    unfolding run
    run-Fine [] b h = h
    run-Fine (opened ∷ events) b h =
        run-Fine events (on_open num gateway params b) (on_open-Fine b h)
    run-Fine (arrived env payload ∷ events) b h =
        and_then-Fine (message num json calendar gateway params env payload b)
          (λ now. run num json calendar gateway params filter events now)
          (message-Fine env payload b h) (λ now. run-Fine events now)
    run-Fine (polled get clock env ∷ events) b h =
        run-Fine events (poll num gateway params json calendar filter get clock env b)
          (poll-Fine get clock env b h)
    run-Fine (stopped ∷ events) b h = h

module _ (num : Double) (json : Json num.F) (calendar : Calendar) (atof : Text → num.F)
    (argv : List Text) (args : CliArgs num atof)
    (parsed : parse_args num atof argv ≡ Main.returned args) (is_paper : args.live_mode ≡ false)
    (inv : PaperGateway num.F → Type 0)
    (ticked : (env : Env) (cid : Text) (books : BookState num.F) (g : PaperGateway num.F)
      → inv g
      → inv
          (on_tick num (paper_gateway num) (params_of num json calendar atof args) env cid books g))
    (swept : (env : Env) (books : BookState num.F) (g : PaperGateway num.F)
      → inv g
      → inv
          (sweep_expired num
            (paper_gateway num)
            (params_of num json calendar atof args)
            env
            books
            g).1) where
  abbrev params : Params num
  params = params_of num json calendar atof args

  -- `main` in paper mode, from a new gateway on.
  pub main-Kept :
      inv (open_paper num args.capital)
      → (getenv : Text → Option Text) (get : ℕ → Get) (clock : ℕ → ℕ → ℕ) (events : List Event)
      → (now : Outcome (Bot num (paper_gateway num) params)) × (main num json calendar atof getenv
            get clock events argv
          ≡ some (paper params now))
        × IsValid (left now).books
        × IsSubscribed (left now).books (left now).subscribed_tokens
        × IsWanted (lower_filter args.filter) (left now).books
        × inv (left now).account
  unfolding main
  main-Kept h getenv get clock events =
      let filter = lower_filter args.filter in
      let (b, started, tracked, same) =
        startup-Tracked num (paper_gateway num) params json calendar filter get clock
          (open_paper num args.capital) in
      let ((valid, subscribed, wanted), kept) =
        run-Fine num (paper_gateway num) params filter inv ticked swept json calendar events b
          (tracked, subst inv (sym same) h) in
      (
        run num json calendar (paper_gateway num) params filter events b,
        rw (parsed, is_paper, started, main) refl,
        valid,
        subscribed,
        wanted,
        kept,
      )
