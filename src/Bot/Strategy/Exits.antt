-- ===== src/Bot/Strategy/Exits.antt =====
-- When the strategy closes a position after a tick.
use polymarket_tickscope.Base.{
  ◌≡◌, ◌⊎◌, inl, inr, true, ◌||◌, some, arith, Option-cases, Bool-cases,
}
use polymarket_tickscope.Base.Text.{Text, text_eq}
use polymarket_tickscope.Base.Dict.{find}
use polymarket_tickscope.Base.Double.{Double}
use polymarket_tickscope.Bot.Books.{MarketBook, BookState, no_mid, no_valid, get_meta}
use polymarket_tickscope.Bot.Orders.{Position, OrderGateway, Env}
use polymarket_tickscope.Bot.Strategy.{Params, expiry_grace_s, ends_within, exit_px, leave}

module _ (num : Double) (gateway : OrderGateway num) (params : Params num) where
  open num use {F, le}
  open gateway use {State, sell, positions}

  -- The NO leg is quoted, and either its middle has reached the exit price or the market is due.
  pub record MayLeave (env : Env) (cid : Text) (bk : MarketBook F) (books : BookState F)
      : Type 0 where
    pub no_quoted : no_valid num bk ≡ true
    pub reason :
        (le params.exit_thresh (no_mid num bk)
          || ends_within expiry_grace_s env.now_ms (get_meta cid books))
        ≡ true

  -- With a position, a tick leaves the gateway as it is, or NO is quoted, the price or the
  -- end of the market calls for an exit, and all shares of the position are sold at the bid
  -- less slippage.
  pub leave_cases :
      (env : Env) (cid : Text) (bk : MarketBook F) (books : BookState F) (g : State)
      → (leave num gateway params env cid bk books g ≡ g)
        ⊎ ((pos : Position F) × (find text_eq cid (positions g) ≡ some pos)
            × MayLeave env cid bk books
            × (leave num gateway params env cid bk books g
                ≡ sell env cid pos.shares (exit_px num bk) bk.no_bid g))
  unfolding leave
  leave_cases env cid bk books g = elim (Option-cases (find text_eq cid (positions g))) [
    | inl e ↦ inl (ground arith)
    | inr (pos, e) ↦ elim (Bool-cases (no_valid num bk)) [
      | inr unquoted ↦ inl (ground arith)
      | inl quoted ↦
          elim (Bool-cases (
            le params.exit_thresh (no_mid num bk)
            || ends_within expiry_grace_s env.now_ms (get_meta cid books))) [
              | inr stays ↦ inl (ground arith)
              | inl goes ↦ inr (pos, e, record { no_quoted = quoted; reason = goes }, ground arith)
            ]
    ]
  ]

  -- With a position, where the conditions hold the order goes out, and otherwise nothing happens.
  pub leave_iff :
      (env : Env) (cid : Text) (bk : MarketBook F) (books : BookState F) (g : State)
      (pos : Position F)
      → find text_eq cid (positions g) ≡ some pos
      → MayLeave env cid bk books
          × (leave num gateway params env cid bk books g
              ≡ sell env cid pos.shares (exit_px num bk) bk.no_bid g)
        ⊎ (¬ MayLeave env cid bk books) × (leave num gateway params env cid bk books g ≡ g)
  unfolding leave
  leave_iff env cid bk books g pos held = elim (Bool-cases (no_valid num bk)) [
    | inr a ↦ inr (λ m. let k = m.no_quoted in cc (k, a), ground (arith, a))
    | inl a ↦
        elim (Bool-cases (
          le params.exit_thresh (no_mid num bk)
          || ends_within expiry_grace_s env.now_ms (get_meta cid books))) [
            | inr b ↦ inr (λ m. let k = m.reason in cc (k, b), ground (arith, a, b))
            | inl b ↦ inl (record { no_quoted = a; reason = b }, ground (arith, a, b, held))
          ]
  ]
