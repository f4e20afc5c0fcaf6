-- ===== src/Bot/Main/Subscribed.antt =====
-- src/bot/main.cpp: which tokens the bot has subscribed to, and which markets it tracks.
use polymarket_tickscope.Base.{
  ℕ, ◌≡◌, refl, sym, ap, subst, ◌∙◌, List, [], ◌∷◌, ◌++◌, append-nil, All-map, some,
}
use polymarket_tickscope.Base.Text.{Text}
use polymarket_tickscope.Base.Double.{Double}
use polymarket_tickscope.Base.Json.{Json}
use polymarket_tickscope.Bot.Books.{MarketMeta, BookState, get_meta, empty_state, empty_market_book}
use polymarket_tickscope.Bot.Books.Invariant.{IsValid, empty_state-IsValid}
use polymarket_tickscope.Bot.Orders.{Env, OrderGateway}
use polymarket_tickscope.Bot.Strategy.{Params}
use polymarket_tickscope.Bot.Discovery.{Calendar}
use polymarket_tickscope.Bot.Discovery.Eligible.{IsEligible}
use polymarket_tickscope.Bot.Discovery.Pages.{Get}
use polymarket_tickscope.Bot.Discovery.Scan.{tail_poll}
use polymarket_tickscope.Bot.Discovery.Growth.{legs, find_meta}
use polymarket_tickscope.Bot.Discovery.Growth.Holds.{
  Holds, grown-Holds, empty_state-Holds, Both, Both-left, Both-right, legs-Both,
}
use polymarket_tickscope.Bot.Discovery.Growth.Loops.{scan_all-Learns, tail_poll-Learns}
use polymarket_tickscope.Bot.Main.{Bot, add_tokens, startup, poll}

module _ {F : Type 0} where
  -- Both tokens of every market of the books are among the subscribed ones.
  abbrev pub IsSubscribed : BookState F → List Text → Type 0
  IsSubscribed books tokens = Holds (Both tokens) books

  -- Every market of the books passes the filter, and its end is known.
  abbrev pub IsWanted : Text → BookState F → Type 0
  IsWanted filter books = Holds (IsEligible filter) books

  add_legs :
      (old new : BookState F) (tokens : List Text) (ms : List MarketMeta)
      → ((cid : Text) → get_meta cid new ≡ find_meta cid ms (get_meta cid old))
      → IsSubscribed old tokens
      → IsSubscribed new (tokens ++ legs ms)
  add_legs old new tokens ms metas h =
      grown-Holds (Both (tokens ++ legs ms)) old new ms
        (All-map (Both (legs ms)) (Both (tokens ++ legs ms)) (Both-right tokens (legs ms)) ms
          (legs-Both ms))
        metas (λ cid m e. Both-left tokens (legs ms) m (h cid m e))

module _ (num : Double) (gateway : OrderGateway num) (params : Params num) where
  open num use {F}
  open gateway use {State}

  -- The books are valid, and every market in them passes the filter and is subscribed to.
  abbrev pub Tracked : Text → Bot num gateway params → Type 0
  Tracked filter b =
      IsValid b.books × IsSubscribed b.books b.subscribed_tokens × IsWanted filter b.books

  pub add_tokens_lem :
      (tokens : List Text) (b : Bot num gateway params)
      → ((add_tokens num gateway params tokens b).subscribed_tokens ≡ b.subscribed_tokens ++ tokens)
        × ((add_tokens num gateway params tokens b).books ≡ b.books)
        × ((add_tokens num gateway params tokens b).account ≡ b.account)
  unfolding add_tokens
  add_tokens_lem [] b = (rw append-nil refl, refl, refl)
  add_tokens_lem (t ∷ ts) b = (refl, refl, refl)

  module _ (json : Json F) (calendar : Calendar) (filter : Text) where
    pub poll-Tracked :
        (get : ℕ → Get) (clock : ℕ → ℕ → ℕ) (env : Env) (b : Bot num gateway params)
        → Tracked filter b
        → Tracked filter (poll num gateway params json calendar filter get clock env b)
    unfolding poll
    poll-Tracked get clock env b (v, h, wanted) =
        let (ms, (_, metas, tokens, valid, all)) =
          tail_poll-Learns (empty_market_book num) b.books filter json calendar get clock
            b.last_offset v in
        let found =
          tail_poll (empty_market_book num) json calendar filter get clock b.last_offset b.books in
        let added =
          add_tokens_lem found.1.1 (record b { books = found.1.0; last_offset = found.0 }) in
        let subscribed = add_legs b.books found.1.0 b.subscribed_tokens ms metas h in
        (
          subst IsValid (sym added.1) valid,
          subst
              (λ books.
                IsSubscribed books
                  (add_tokens num gateway params found.1.1
                    (record b { books = found.1.0; last_offset = found.0 })).subscribed_tokens)
              (sym added.1)
              (subst (IsSubscribed found.1.0)
                (ap (◌++◌ b.subscribed_tokens) (sym tokens) ∙ sym added.0) subscribed),
          subst (IsWanted filter) (sym added.1)
              (grown-Holds (IsEligible filter) b.books found.1.0 ms all metas wanted),
        )

    -- The rounds of the main loop, each with its answers, clocks and environment.
    unfoldable pub polls :
        List ((ℕ → Get) × (ℕ → ℕ → ℕ) × Env) → Bot num gateway params → Bot num gateway params
    polls [] b = b
    polls ((get, clock, env) ∷ rest) b =
        polls rest (poll num gateway params json calendar filter get clock env b)

    polls-Tracked :
        (rest : List ((ℕ → Get) × (ℕ → ℕ → ℕ) × Env)) (b : Bot num gateway params)
        → Tracked filter b
        → Tracked filter (polls rest b)
    unfolding polls
    polls-Tracked [] b h = h
    polls-Tracked ((get, clock, env) ∷ rest) b h =
        polls-Tracked rest (poll num gateway params json calendar filter get clock env b)
          (poll-Tracked get clock env b h)

    pub startup-Tracked :
        (get : ℕ → Get) (clock : ℕ → ℕ → ℕ) (account : State)
        → (b : Bot num gateway params) × (startup num gateway params json calendar filter get clock
              account
            ≡ some b)
          × Tracked filter b
          × (b.account ≡ account)
    unfolding startup
    startup-Tracked get clock account =
        let (c, ms, e, (_, metas, tokens, valid, all)) =
          scan_all-Learns (empty_market_book num) empty_state filter json calendar get clock 0
            empty_state-IsValid in
        (
          record {
            books = c.found_so_far.0;
            account = account;
            last_offset = c.last_offset;
            subscribed_tokens = c.found_so_far.1;
            sent = [];
          },
          rw (startup, e) refl,
          (
            valid,
            subst (IsSubscribed c.found_so_far.0) (sym tokens)
                (add_legs empty_state c.found_so_far.0 [] ms metas (empty_state-Holds (Both []) F)),
            grown-Holds (IsEligible filter) empty_state c.found_so_far.0 ms all metas
                (empty_state-Holds (IsEligible filter) F),
          ),
          refl,
        )

    -- The start-up returns, and after it and any rounds of the main loop the books are
    -- valid, both tokens of every market in them are among the subscribed tokens, and
    -- every market in them has a question that contains the filter, ignoring the
    -- question's case, and a known end.
    pub polls-startup-Tracked :
        (rest : List ((ℕ → Get) × (ℕ → ℕ → ℕ) × Env)) (get : ℕ → Get) (clock : ℕ → ℕ → ℕ)
        (account : State)
        → (b : Bot num gateway params) × (startup num gateway params json calendar filter get clock
              account
            ≡ some b)
          × Tracked filter (polls rest b)
    polls-startup-Tracked rest get clock account =
        let (b, e, h, _) = startup-Tracked get clock account in (b, e, polls-Tracked rest b h)
