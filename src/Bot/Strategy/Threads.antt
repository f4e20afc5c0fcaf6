-- ===== src/Bot/Strategy/Threads.antt =====
-- src/bot/StrategyEngine.hpp: the I/O thread in `on_tick` and the main thread in `sweep_expired`, at
-- the same time. A call of the gateway holds its mutex and is one step; `on_tick` decides on an
-- order in one step and places it in a later one, and the sweep collects in one step and then sells
-- market by market from its copy of the positions. Quotes and new markets come in between. What `on_tick` reads, it reads at one time.
pub mod Fits
pub mod Safe
pub mod Sound
pub mod Swept
use polymarket_tickscope.Base.{
  ℕ, ◌≤◌, ◌≡◌, refl, List, [], ◌∷◌, Bool, true, false, not, ◌||◌, Option, none, some, Option-cases,
  Bool-cases, inl, inr, arith, if◌then◌else◌,
}
use polymarket_tickscope.Base.Text.{Text, text_eq}
use polymarket_tickscope.Base.Dict.{find}
use polymarket_tickscope.Base.Double.{Double}
use polymarket_tickscope.Bot.Books.{
  MarketBook, MarketMeta, BookState, yes_mid, no_mid, yes_valid, no_valid, get_book, get_meta,
  add_market, empty_state, empty_market_book,
}
use polymarket_tickscope.Bot.Books
use polymarket_tickscope.Bot.Orders.{
  Position, OrderGateway, Env, PaperGateway, paper_gateway, open_paper,
}
use polymarket_tickscope.Bot.Strategy.{
  Params, min_remaining_s, expiry_grace_s, meta_or_default, ends_within, kelly_size, kelly_min_sh,
  entry_px, exit_px, enter, leave, on_tick, expired_cids, close_all,
}

-- The call of the gateway with which a tick ends, if any.
pub data Order (F : Type 0) : Type 0 where
  nothing : Order F
  buys : (cid question : Text) → (shares fill_px yes_mid no_ask : F) → Order F
  sells : (cid : Text) → (shares fill_px no_bid : F) → Order F

module _ (num : Double) (params : Params num) where
  open num use {F, lt, le, mul}

  module _ (gateway : OrderGateway num) where
    open gateway use {State, buy, sell, has_position, available_capital, positions}

    unfoldable pub decide_enter : Env → Text → MarketBook F → BookState F → State → Order F
    decide_enter env cid bk books g =
        let meta = get_meta cid books in
        let fill_px = entry_px num bk in
        if not (yes_valid num bk) || not (no_valid num bk)
        then nothing
        else if lt params.threshold (yes_mid num bk)
        then nothing
        else if lt params.max_entry_ask bk.no_ask
        then nothing
        else if ends_within min_remaining_s env.now_ms meta
        then nothing
        else if lt (available_capital g) (mul fill_px (kelly_min_sh num))
        then nothing
        else buys cid (meta_or_default meta).question (kelly_size num fill_px (available_capital g))
            fill_px (yes_mid num bk) bk.no_ask

    unfoldable pub decide_leave : Env → Text → MarketBook F → BookState F → State → Order F
    decide_leave env cid bk books g =
        if not (no_valid num bk)
        then nothing
        else if le params.exit_thresh (no_mid num bk)
            || ends_within expiry_grace_s env.now_ms (get_meta cid books)
        then elim (find text_eq cid (positions g)) [
          | none ↦ nothing
          | some pos ↦ sells cid pos.shares (exit_px num bk) bk.no_bid
        ]
        else nothing

    unfoldable pub decide : Env → Text → BookState F → State → Order F
    decide env cid books g = elim (get_book cid books) [
      | none ↦ nothing
      | some bk ↦
          if has_position cid g
          then decide_leave env cid bk books g
          else decide_enter env cid bk books g
    ]

    unfoldable pub place : Env → Order F → State → State
    place env nothing g = g
    place env (buys cid question shares fill_px yes_mid no_ask) g =
        buy env cid question shares fill_px yes_mid no_ask g
    place env (sells cid shares fill_px no_bid) g = sell env cid shares fill_px no_bid g

    place-decide_enter :
        (env : Env) (cid : Text) (bk : MarketBook F) (books : BookState F) (g : State)
        → place env (decide_enter env cid bk books g) g
          ≡ enter num gateway params env cid bk books g
    unfolding place decide_enter enter
    place-decide_enter env cid bk books g = ground arith

    place-decide_leave :
        (env : Env) (cid : Text) (bk : MarketBook F) (books : BookState F) (g : State)
        → place env (decide_leave env cid bk books g) g
          ≡ leave num gateway params env cid bk books g
    unfolding place decide_leave leave
    place-decide_leave env cid bk books g = ground arith

    -- Without another thread between them, the two steps are `on_tick`.
    pub place-decide :
        (env : Env) (cid : Text) (books : BookState F) (g : State)
        → place env (decide env cid books g) g ≡ on_tick num gateway params env cid books g
    unfolding decide on_tick place
    place-decide env cid books g = elim (Option-cases (get_book cid books)) [
      | inl e ↦ rw (e, decide, on_tick) refl
      | inr (bk, e) ↦ elim (Bool-cases (has_position cid g)) [
        | inl held ↦ rw (e, decide, on_tick) (rw held (place-decide_leave env cid bk books g))
        | inr new ↦ rw (e, decide, on_tick) (rw new (place-decide_enter env cid bk books g))
      ]
    ]

  -- `order` waits to be placed by the I/O thread, and the sweep, with its copy `snapshot`, has still
  -- to sell the markets `remaining`. `clock` is the latest time that a thread has read.
  pub record Threads : Type 0 where
    pub account : PaperGateway F
    pub books : BookState F
    pub clock : ℕ
    pub order : Order F
    pub snapshot : List (Text × Position F)
    pub remaining : List Text

  -- A new paper gateway and new books, with no thread at work.
  unfoldable pub opened : F → ℕ → Threads
  opened initial clock = record {
    account = open_paper num initial;
    books = empty_state;
    clock = clock;
    order = nothing;
    snapshot = [];
    remaining = [];
  }

  pub data Step : Threads → Threads → Type 0 where
    ticked :
        (s : Threads) (env : Env) (cid : Text)
        → s.order ≡ nothing
        → s.clock ≤ env.now_ms
        → Step s (record s {
          clock = env.now_ms;
          order = decide (paper_gateway num) env cid s.books s.account;
        })
    placed :
        (s : Threads) (env : Env)
        → Step s (record s {
          account = place (paper_gateway num) env s.order s.account;
          order = nothing;
        })
    collected :
        (s : Threads) (env : Env)
        → s.remaining ≡ []
        → s.clock ≤ env.now_ms
        → Step s (record s {
          clock = env.now_ms;
          snapshot = s.account.positions;
          remaining =
              expired_cids num (paper_gateway num) params env.now_ms s.books s.account.positions;
        })
    swept :
        (s : Threads) (env : Env) (cid : Text) (cids : List Text)
        → s.remaining ≡ cid ∷ cids
        → Step s (record s {
          account =
              close_all num (paper_gateway num) params env s.books s.snapshot (cid ∷ []) s.account;
          remaining = cids;
        })
    quoted :
        (s : Threads) (token : Text) (bid ask : F)
        → Step s (record s { books = (Books.on_tick token bid ask s.books).1 })
    listed :
        (s : Threads) (meta : MarketMeta)
        → Step s (record s { books = add_market (empty_market_book num) meta s.books })

  pub data Reach (s : Threads) : Threads → Type 0 where
    here : Reach s s
    next : {t u : Threads} → Reach s t → Step t u → Reach s u
