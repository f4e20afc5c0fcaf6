-- ===== src/Coinbase/Feed/Quotes.antt =====
-- What a message of the feed can do: nothing, or publish and journal one tick.
use polymarket_tickscope.Base.{
  ℕ, ◌≡◌, ◌⊎◌, refl, subst, [], ◌∷◌, ◌++◌, Bool, false, ◌||◌, Option, none, some, Option-cases,
  Bool-cases, inl, inr, arith, ite, ltb, ◌==◌, length,
}
use polymarket_tickscope.Base.Text.{Text, codes, text_eq}
use polymarket_tickscope.Base.Json.{Json}
use polymarket_tickscope.Base.Double.{Double}
use polymarket_tickscope.Core.{BtcTick}
use polymarket_tickscope.Coinbase.Journal.{Setup}
use polymarket_tickscope.Coinbase.Journal.Conserved.{received, write-received}
use polymarket_tickscope.Coinbase.Feed.{CoinbaseFeed, max_payload, quoted, ticker_tick, on_message}

module _ (num : Double) (json : Json num.F) where
  open num use {F, decimal, add, div, le}

  -- A tick with a positive bid and ask, and the price halfway between them.
  abbrev pub IsQuoted : BtcTick F → Type 0
  IsQuoted tick =
      (le tick.bid (decimal 0 0) ≡ false)
      × (le tick.ask (decimal 0 0) ≡ false)
      × (tick.mid ≡ div (add tick.bid tick.ask) (decimal 2 0))

  abbrev Quoted : ℕ → Option (BtcTick F) → Type 0
  Quoted now_ms none = Unit
  Quoted now_ms (some tick) = IsQuoted tick × (tick.timestamp ≡ now_ms)

  or_false : (a b : Bool) → a || b ≡ false → (a ≡ false) × (b ≡ false)
  or_false a b h = ground arith

  quoted-Quoted : (now_ms : ℕ) (obj : json.Object) → Quoted now_ms (quoted num json now_ms obj)
  unfolding quoted
  quoted-Quoted now_ms obj =
      elim (Option-cases (json.get_double_in_string (codes "best_bid") obj)) [
        | inl e ↦ rw e tt
        | inr (bid, e) ↦ elim (Option-cases (json.get_double_in_string (codes "best_ask") obj)) [
          | inl f ↦ rw (e, f) tt
          | inr (ask, f) ↦ elim (Bool-cases (le bid (decimal 0 0) || le ask (decimal 0 0))) [
            | inl b ↦ rw (e, f, b) tt
            | inr b ↦ let (p, q) = or_false _ _ b in rw (e, f, b) ((p, q, refl), refl)
          ]
        ]
      ]

  ticker_tick-Quoted :
      (now_ms : ℕ) (payload : Text) → Quoted now_ms (ticker_tick num json now_ms payload)
  unfolding ticker_tick
  ticker_tick-Quoted now_ms payload =
      elim (Bool-cases ((length payload == 0) || ltb max_payload (length payload))) [
        | inl b ↦ rw b tt
        | inr b ↦ elim (Option-cases (json.iterate payload)) [
          | inl e ↦ rw (b, e) tt
          | inr (doc, e) ↦ elim (Option-cases (json.doc_object doc)) [
            | inl f ↦ rw (b, e, f) tt
            | inr (obj, f) ↦ elim (Option-cases (json.get_string (codes "type") obj)) [
              | inl g ↦ rw (b, e, f, g) tt
              | inr (msg_type, g) ↦
                  rw (b, e, f, g)
                    (elim (text_eq msg_type (codes "ticker"))
                      as (λ d. Quoted now_ms (ite d (quoted num json now_ms obj) none)) [
                        | yes _ ↦ quoted-Quoted now_ms obj
                        | no _ ↦ tt
                      ])
            ]
          ]
        ]
      ]

  -- A message leaves the BTC feed as it is, or brings one tick with a positive bid and ask,
  -- the mid price between them and the time of the clock, which is put behind the journal's
  -- other ticks and whose mid price is published.
  pub on_message_cases :
      (setup : Setup) (opens : Bool) (now_ms : ℕ) (payload : Text) (feed : CoinbaseFeed F)
      → (on_message num json setup opens now_ms payload feed ≡ feed)
        ⊎ ((tick : BtcTick F) × IsQuoted tick
            × (tick.timestamp ≡ now_ms)
            × ((on_message num json setup opens now_ms payload feed).mid ≡ tick.mid)
            × (received (on_message num json setup opens now_ms payload feed).journal
                ≡ received feed.journal ++ tick ∷ []))
  unfolding on_message
  on_message_cases setup opens now_ms payload feed =
      elim (Option-cases (ticker_tick num json now_ms payload)) [
        | inl e ↦ rw (e, on_message) (inl refl)
        | inr (tick, e) ↦
            let (quotes, at) = subst (Quoted now_ms) e (ticker_tick-Quoted now_ms payload) in
            rw (e, on_message)
              (inr (tick, quotes, at, refl, write-received setup opens tick feed.journal))
      ]
