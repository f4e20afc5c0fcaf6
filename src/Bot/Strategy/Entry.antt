-- ===== src/Bot/Strategy/Entry.antt =====
-- When the strategy opens a position.
use polymarket_tickscope.Base.{
  ℕ, ◌+◌, ◌*◌, ◌<◌, ◌↔◌, refl, subst, some_inj, ◌≤◌, ◌≡◌, ◌⊎◌, inl, inr, true, false, Bool-cases,
  Option, none, some, arith,
}
use polymarket_tickscope.Base.Text.{Text}
use polymarket_tickscope.Base.Double.{Double}
use polymarket_tickscope.Bot.Books.{
  MarketBook, MarketMeta, BookState, yes_mid, yes_valid, no_valid, get_meta,
}
use polymarket_tickscope.Bot.Orders.{OrderGateway, Env}
use polymarket_tickscope.Bot.Strategy.{
  Params, min_remaining_s, expiry_grace_s, meta_or_default, ends_within, kelly_size, kelly_min_sh,
  entry_px, enter,
}

-- The margin before which no position is opened contains the one in which positions are closed.
pub ends_within_mono :
    (now later : ℕ) (meta : Option MarketMeta)
    → now ≤ later
    → ends_within expiry_grace_s now meta ≡ true
    → ends_within min_remaining_s later meta ≡ true
unfolding ends_within
ends_within_mono now later none h e = e
ends_within_mono now later (some meta) h e = ground arith

-- No known end of the market lies at this time or before it.
abbrev pub EndsAfter : ℕ → Option MarketMeta → Type 0
EndsAfter time meta =
    (m : MarketMeta) → meta ≡ some m → (m.end_time_ms ≡ 0) ⊎ (time < m.end_time_ms)

abbrev pub EndsBy : ℕ → Option MarketMeta → Type 0
EndsBy time meta = (m : MarketMeta) × (meta ≡ some m) × (0 < m.end_time_ms) × (m.end_time_ms ≤ time)

pub ends_within-EndsAfter :
    (margin_s now : ℕ) (meta : Option MarketMeta)
    → (ends_within margin_s now meta ≡ false) ↔ EndsAfter (now + margin_s * 1000) meta
unfolding ends_within
ends_within-EndsAfter margin_s now none = (λ e m f. absurd (cc f), λ h. refl)
ends_within-EndsAfter margin_s now (some meta) = (
  λ e m f.
      subst (λ (x : MarketMeta). (x.end_time_ms ≡ 0) ⊎ (now + margin_s * 1000 < x.end_time_ms))
        (some_inj f) (ground arith),
  λ h. elim (h meta refl) [ inl e ↦ ground arith | inr l ↦ ground arith ],
)

pub ends_within-EndsBy :
    (margin_s now : ℕ) (meta : Option MarketMeta)
    → (ends_within margin_s now meta ≡ true) ↔ EndsBy (now + margin_s * 1000) meta
unfolding ends_within
ends_within-EndsBy margin_s now none = (λ e. absurd (cc e), λ h. absurd (let e = h.1 in cc e))
ends_within-EndsBy margin_s now (some meta) = (
  λ e. (meta, refl, ground arith, ground arith),
  λ (m, f, pos, l).
      let same : meta ≡ m = some_inj f in
      let p : 0 < meta.end_time_ms = rw same pos in
      let q : meta.end_time_ms ≤ now + margin_s * 1000 = rw same l in ground arith,
)

module _ (num : Double) (gateway : OrderGateway num) (params : Params num) where
  open num use {F, lt, mul}
  open gateway use {State, buy, has_position, available_capital}

  -- All that has to hold for an order: both legs quoted, YES at most at the threshold, the NO ask
  -- at most at its cap, two minutes left, and cash for the least order.
  pub record MayEnter (env : Env) (cid : Text) (bk : MarketBook F) (books : BookState F) (g : State)
      : Type 0 where
    pub yes_quoted : yes_valid num bk ≡ true
    pub no_quoted : no_valid num bk ≡ true
    pub cheap : lt params.threshold (yes_mid num bk) ≡ false
    pub ask_capped : lt params.max_entry_ask bk.no_ask ≡ false
    pub time_left : ends_within min_remaining_s env.now_ms (get_meta cid books) ≡ false
    pub funded : lt (available_capital g) (mul (entry_px num bk) (kelly_min_sh num)) ≡ false

  -- The order that goes out, sized by the Kelly rule on the cash at hand.
  abbrev pub order : Env → Text → MarketBook F → BookState F → State → State
  order env cid bk books g =
      buy env cid (meta_or_default (get_meta cid books)).question
        (kelly_size num (entry_px num bk) (available_capital g)) (entry_px num bk) (yes_mid num bk)
        bk.no_ask g

  -- Without a position, a tick leaves the gateway as it is, or all entry conditions hold and
  -- the gateway has got the one order sized by the Kelly rule.
  pub enter_cases :
      (env : Env) (cid : Text) (bk : MarketBook F) (books : BookState F) (g : State)
      → (enter num gateway params env cid bk books g ≡ g)
        ⊎ (MayEnter env cid bk books g
            × (enter num gateway params env cid bk books g ≡ order env cid bk books g))
  unfolding enter
  enter_cases env cid bk books g = ground arith

  -- Where the conditions hold the order goes out, and otherwise nothing happens.
  pub enter_iff :
      (env : Env) (cid : Text) (bk : MarketBook F) (books : BookState F) (g : State)
      → MayEnter env cid bk books g
          × (enter num gateway params env cid bk books g ≡ order env cid bk books g)
        ⊎ (¬ MayEnter env cid bk books g) × (enter num gateway params env cid bk books g ≡ g)
  unfolding enter
  enter_iff env cid bk books g =
      let cost = mul (entry_px num bk) (kelly_min_sh num) in
      elim (Bool-cases (yes_valid num bk)) [
        | inr a ↦ inr (λ m. let k = m.yes_quoted in cc (k, a), ground (arith, a))
        | inl a ↦ elim (Bool-cases (no_valid num bk)) [
          | inr b ↦ inr (λ m. let k = m.no_quoted in cc (k, b), ground (arith, b))
          | inl b ↦ elim (Bool-cases (lt params.threshold (yes_mid num bk))) [
            | inl c ↦ inr (λ m. let k = m.cheap in cc (k, c), ground (arith, c))
            | inr c ↦ elim (Bool-cases (lt params.max_entry_ask bk.no_ask)) [
              | inl d ↦ inr (λ m. let k = m.ask_capped in cc (k, d), ground (arith, d))
              | inr d ↦
                  elim (Bool-cases (ends_within min_remaining_s env.now_ms (get_meta cid books))) [
                    | inl e ↦ inr (λ m. let k = m.time_left in cc (k, e), ground (arith, e))
                    | inr e ↦ elim (Bool-cases (lt (available_capital g) cost)) [
                      | inl f ↦ inr (λ m. let k = m.funded in cc (k, f), ground (arith, f))
                      | inr f ↦ inl (
                        record {
                          yes_quoted = a;
                          no_quoted = b;
                          cheap = c;
                          ask_capped = d;
                          time_left = e;
                          funded = f;
                        },
                        ground (arith, a, b, c, d, e, f),
                      )
                    ]
                  ]
            ]
          ]
        ]
      ]

  -- A market that the expiry sweep would close is not entered again, then or later: so no position
  -- can be opened between the sweep's snapshot and its sale.
  pub due_not_entered :
      (env : Env) (cid : Text) (bk : MarketBook F) (books : BookState F) (g : State) (now : ℕ)
      → now ≤ env.now_ms
      → ends_within expiry_grace_s now (get_meta cid books) ≡ true
      → enter num gateway params env cid bk books g ≡ g
  due_not_entered env cid bk books g now h e = elim (enter_cases env cid bk books g) [
    | inl same ↦ same
    | inr (may, _) ↦ cc (may.time_left, ends_within_mono now env.now_ms (get_meta cid books) h e)
  ]
