-- ===== src/Feedhandler/Ticks.antt =====
-- What a message adds to the queue.
use polymarket_tickscope.Base.{
  ℕ, ◌<◌, ◌≤◌, ◌≡◌, ◌⊎◌, refl, sym, subst, List, [], ◌∷◌, ◌++◌, append_assoc, append-nil, All,
  All-append, Bool-cases, inl, inr, Option, none, some, Option-cases, arith, ite, length,
  length-take-le,
}
use polymarket_tickscope.Base.Text.{Text, codes, text_eq}
use polymarket_tickscope.Base.Json.{Json}
use polymarket_tickscope.Base.Double.{Double}
use polymarket_tickscope.Core.{Tick}
use polymarket_tickscope.Tickerplant.{TickQueue}
use polymarket_tickscope.Feedhandler.{
  copy_asset_id, side_of, change_tick, trade_tick, event_of, push_tick, push_changes, price_change,
  parse_and_push,
}

module _ (num : Double) (json : Json num.F) where
  open num use {F, decimal}
  open json use {Object, get_string, get_double_in_string, get_uint64_in_string, get_array}

  -- The asset id fits its 80 bytes with the NUL, the side is one of two, and the tick is a price
  -- change or a trade without quotes.
  abbrev pub IsEncoded : Tick F → Type 0
  IsEncoded tick =
      (length tick.asset_id < 80)
      × (tick.side ≤ 1)
      × ((tick.event_type ≡ 0)
          ⊎ (tick.event_type ≡ 1) × (tick.best_bid ≡ decimal 0 0) × (tick.best_ask ≡ decimal 0 0))

  abbrev Encoded : Option (Tick F) → Type 0
  Encoded none = Unit
  Encoded (some tick) = IsEncoded tick

  asset_id-fits : (sv : Text) → length (copy_asset_id sv) < 80
  unfolding copy_asset_id
  asset_id-fits sv = omega (arith, length-take-le 79 sv)

  side_of-le : (side : Text) → side_of num json side ≤ 1
  unfolding side_of
  side_of-le side = elim (text_eq side (codes "BUY")) as (λ d. ite d 0 1 ≤ 1) [
    | yes _ ↦ omega arith
    | no _ ↦ omega arith
  ]

  change_tick-Encoded : (ts : ℕ) (change : Object) → Encoded (change_tick num json ts change)
  unfolding change_tick
  change_tick-Encoded ts change = elim (Option-cases (get_string (codes "asset_id") change)) [
    | inl e ↦ rw e tt
    | inr (id, e) ↦ elim (Option-cases (get_double_in_string (codes "price") change)) [
      | inl p ↦ rw (e, p) tt
      | inr (price, p) ↦ elim (Option-cases (get_double_in_string (codes "size") change)) [
        | inl z ↦ rw (e, p, z) tt
        | inr (size, z) ↦ elim (Option-cases (get_string (codes "side") change)) [
          | inl d ↦ rw (e, p, z, d) tt
          | inr (side, d) ↦ rw (e, p, z, d) (asset_id-fits id, side_of-le side, inl refl)
        ]
      ]
    ]
  ]

  trade_tick-Encoded : (obj : Object) → Encoded (trade_tick num json obj)
  unfolding trade_tick
  trade_tick-Encoded obj = elim (Option-cases (get_uint64_in_string (codes "timestamp") obj)) [
    | inl t ↦ rw t tt
    | inr (ts, t) ↦ elim (Option-cases (get_string (codes "asset_id") obj)) [
      | inl e ↦ rw (t, e) tt
      | inr (id, e) ↦ elim (Option-cases (get_double_in_string (codes "price") obj)) [
        | inl p ↦ rw (t, e, p) tt
        | inr (price, p) ↦ elim (Option-cases (get_double_in_string (codes "size") obj)) [
          | inl z ↦ rw (t, e, p, z) tt
          | inr (size, z) ↦ elim (Option-cases (get_string (codes "side") obj)) [
            | inl d ↦ rw (t, e, p, z, d) tt
            | inr (side, d) ↦
                rw (t, e, p, z, d) (asset_id-fits id, side_of-le side, inr (refl, refl, refl))
          ]
        ]
      ]
    ]
  ]

  module _ (queue : TickQueue F) where
    open queue use {State, produce, Holds, produce_taken, produce_dropped}

    -- Well-formed ticks have gone to the end of the queue, and what waited there still waits.
    pub record Appends (q : List (Tick F)) (s : State) : Type 0 where
      pub added : List (Tick F)
      pub encoded : All IsEncoded added
      pub holds : Holds s (q ++ added)

    abbrev pub AppendsIf : List (Tick F) → Option State → Type 0
    AppendsIf q none = Unit
    AppendsIf q (some s) = Appends q s

    push_tick-Appends :
        (q : List (Tick F)) (s : State) (o : Option (Tick F))
        → Encoded o
        → Appends q s
        → Appends q (push_tick num json queue o s)
    unfolding push_tick
    push_tick-Appends q s none e h = h
    push_tick-Appends q s (some t) e h = elim (Bool-cases (produce t s).0) [
      | inl b ↦ record {
        added = h.added ++ t ∷ [];
        encoded = All-append IsEncoded h.added (t ∷ []) h.encoded (e, tt);
        holds =
            subst (Holds (produce t s).1) (append_assoc q h.added (t ∷ []))
              (produce_taken t s _ h.holds b);
      }
      | inr b ↦ record {
        added = h.added;
        encoded = h.encoded;
        holds = produce_dropped t s _ h.holds b;
      }
    ]

    push_changes-Appends :
        (ts : ℕ) (q : List (Tick F)) (changes : List (Option Object)) (s : State)
        → Appends q s
        → AppendsIf q (push_changes num json queue ts changes s)
    unfolding push_changes
    push_changes-Appends ts q [] s h = h
    push_changes-Appends ts q (none ∷ changes) s h = tt
    push_changes-Appends ts q (some c ∷ changes) s h =
        push_changes-Appends ts q changes _ (push_tick-Appends q s _ (change_tick-Encoded ts c) h)

    price_change-Appends :
        (q : List (Tick F)) (obj : Object) (s : State)
        → Appends q s
        → AppendsIf q (price_change num json queue obj s)
    unfolding price_change
    price_change-Appends q obj s h =
        elim (get_uint64_in_string (codes "timestamp") obj)
          as (λ o. AppendsIf q (elim o [
            | none ↦ some s
            | some timestamp_ms ↦ elim (get_array (codes "price_changes") obj) [
              | none ↦ some s
              | some changes ↦ push_changes num json queue timestamp_ms changes s
            ]
          ])) [
            | none ↦ h
            | some ts ↦
                elim (get_array (codes "price_changes") obj)
                  as (λ o. AppendsIf q (elim o [
                    | none ↦ some s
                    | some changes ↦ push_changes num json queue ts changes s
                  ])) [ none ↦ h | some changes ↦ push_changes-Appends ts q changes s h ]
          ]

    dispatch-Appends :
        (q : List (Tick F)) (s : State) (event_type : Text) (obj : Object)
        → Appends q s
        → AppendsIf q (
            ite (text_eq event_type (codes "price_change")) (price_change num json queue obj s) (
              ite
                (text_eq event_type (codes "last_trade_price"))
                (some (push_tick num json queue (trade_tick num json obj) s))
                (some s)))
    dispatch-Appends q s event_type obj h =
        elim (text_eq event_type (codes "price_change"))
          as (λ d. AppendsIf q (
            ite d (price_change num json queue obj s) (
              ite (text_eq event_type (codes "last_trade_price"))
                (some (push_tick num json queue (trade_tick num json obj) s)) (some s)))) [
                  | yes _ ↦ price_change-Appends q obj s h
                  | no _ ↦
                      elim (text_eq event_type (codes "last_trade_price"))
                        as (λ d. AppendsIf q (
                          ite d (some (push_tick num json queue (trade_tick num json obj) s))
                            (some s))) [
                              | yes _ ↦ push_tick-Appends q s _ (trade_tick-Encoded obj) h
                              | no _ ↦ h
                            ]
                ]

    -- A message whose handling returns adds ticks at the end of the queue only: each has
    -- an asset id of less than 80 bytes, a side of 0 or 1, and is a price change or a
    -- trade without quotes.
    pub parse_and_push-Appends :
        (message : Text) (q : List (Tick F)) (s : State)
        → Holds s q
        → AppendsIf q (parse_and_push num json queue message s)
    unfolding parse_and_push
    parse_and_push-Appends message q s h =
        let start : Appends q s = record {
          added = [];
          encoded = tt;
          holds = subst (Holds s) (sym (append-nil q)) h;
        } in
        elim (Option-cases (event_of num json message)) [
          | inl e ↦ rw (e, AppendsIf, parse_and_push) start
          | inr ((event_type, obj), e) ↦
              rw (e, AppendsIf, parse_and_push) (dispatch-Appends q s event_type obj start)
        ]
