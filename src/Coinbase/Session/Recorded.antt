-- ===== src/Coinbase/Session/Recorded.antt =====
-- A whole session of the recorder, from its start to its end.
use polymarket_tickscope.Base.{
  ℕ, ◌≡◌, refl, sym, ap, ◌∙◌, List, [], ◌∷◌, ◌++◌, append_assoc, append-nil, map, Bool, true, false,
  Option, none, some, Option-cases, inl, inr, if◌then◌else◌, if_true, if_false,
}
use polymarket_tickscope.Base.Text.{Text}
use polymarket_tickscope.Base.Json.{Json}
use polymarket_tickscope.Base.Double.{Double}
use polymarket_tickscope.Core.{BtcTick}
use polymarket_tickscope.Coinbase.Journal.{Setup, write_all, close}
use polymarket_tickscope.Coinbase.Journal.Conserved.{close-write_all}
use polymarket_tickscope.Coinbase.Feed.{CoinbaseFeed, ticker_tick, on_message}
use polymarket_tickscope.Coinbase.Session.{
  Connection, Event, opened, disconnected, failed, arrived, stopped, subscription, new_connection,
  stop, handle, handle_all, wait, run, main_setup, main,
}

abbrev pub has_stop : List Event → Bool
has_stop [] = false
has_stop (stopped ∷ es) = true
has_stop (opened ∷ es) = has_stop es
has_stop (disconnected ∷ es) = has_stop es
has_stop (failed ∷ es) = has_stop es
has_stop (arrived _ _ _ ∷ es) = has_stop es

-- One subscription for each Open.
unfoldable pub subscriptions : List Event → List Text
subscriptions [] = []
subscriptions (opened ∷ es) = subscription ∷ subscriptions es
subscriptions (disconnected ∷ es) = subscriptions es
subscriptions (failed ∷ es) = subscriptions es
subscriptions (arrived _ _ _ ∷ es) = subscriptions es
subscriptions (stopped ∷ es) = subscriptions es

abbrev pub concat : List (List Event) → List Event
concat [] = []
concat (es ∷ ess) = es ++ concat ess

-- None of these sleeps has a stop.
abbrev pub Quiet : List (List Event) → Type 0
Quiet [] = Unit
Quiet (es ∷ ess) = (has_stop es ≡ false) × Quiet ess

module _ (num : Double) (json : Json num.F) where
  open num use {F, decimal}

  abbrev pub add_tick :
      Bool → Option (BtcTick F) → List (Bool × BtcTick F) → List (Bool × BtcTick F)
  add_tick opens none rest = rest
  add_tick opens (some tick) rest = (opens, tick) ∷ rest

  -- The ticks of the messages, in order, each with whether a file that it needs opens.
  unfoldable pub ticks_of : List Event → List (Bool × BtcTick F)
  ticks_of [] = []
  ticks_of (arrived opens now_ms payload ∷ es) =
      add_tick opens (ticker_tick num json now_ms payload) (ticks_of es)
  ticks_of (opened ∷ es) = ticks_of es
  ticks_of (disconnected ∷ es) = ticks_of es
  ticks_of (failed ∷ es) = ticks_of es
  ticks_of (stopped ∷ es) = ticks_of es

  unfoldable pub last_mid : List (Bool × BtcTick F) → F → F
  last_mid [] mid = mid
  last_mid ((_, tick) ∷ ts) mid = last_mid ts tick.mid

  module _ (setup : Setup) where
    -- What events do to a connection.
    record Handled (es : List Event) (c : Connection F) : Type 0 where
      journal :
          (handle_all num json setup es c).feed.journal
          ≡ write_all setup (ticks_of es) c.feed.journal
      mid : (handle_all num json setup es c).feed.mid ≡ last_mid (ticks_of es) c.feed.mid
      sent : (handle_all num json setup es c).sent ≡ c.sent ++ subscriptions es
      running :
          (handle_all num json setup es c).running ≡ (if has_stop es then false else c.running)

    on_message_lem :
        (opens : Bool) (now_ms : ℕ) (payload : Text) (feed : CoinbaseFeed F)
        (ts : List (Bool × BtcTick F))
        → let after = on_message num json setup opens now_ms payload feed in
          let all = add_tick opens (ticker_tick num json now_ms payload) ts in
          (write_all setup ts after.journal ≡ write_all setup all feed.journal)
          × (last_mid ts after.mid ≡ last_mid all feed.mid)
    unfolding on_message write_all last_mid add_tick
    on_message_lem opens now_ms payload feed ts =
        elim (Option-cases (ticker_tick num json now_ms payload)) [
          | inl e ↦ rw (e, on_message, add_tick) (refl, refl)
          | inr (tick, e) ↦ rw (e, on_message, add_tick) (refl, refl)
        ]

    either_false : (b : Bool) → (if b then false else false) ≡ false
    either_false true = refl
    either_false false = refl

    handle_all-Handled : (es : List Event) (c : Connection F) → Handled es c
    unfolding handle_all handle stop subscriptions ticks_of last_mid write_all
    handle_all-Handled [] c = record {
      journal = refl;
      mid = refl;
      sent = sym (append-nil c.sent);
      running = refl;
    }
    handle_all-Handled (opened ∷ es) c =
        let rest = handle_all-Handled es (record c { sent = c.sent ++ subscription ∷ [] }) in
        record {
          journal = rest.journal;
          mid = rest.mid;
          sent = rest.sent ∙ append_assoc c.sent (subscription ∷ []) (subscriptions es);
          running = rest.running;
        }
    handle_all-Handled (disconnected ∷ es) c =
        let rest = handle_all-Handled es c in
        record { journal = rest.journal; mid = rest.mid; sent = rest.sent; running = rest.running }
    handle_all-Handled (failed ∷ es) c =
        let rest = handle_all-Handled es c in
        record { journal = rest.journal; mid = rest.mid; sent = rest.sent; running = rest.running }
    handle_all-Handled (arrived opens now_ms payload ∷ es) c =
        let rest = handle_all-Handled es (handle num json setup (arrived opens now_ms payload) c) in
        let feed = on_message_lem opens now_ms payload c.feed (ticks_of es) in
        record {
          journal = rest.journal ∙ feed.0;
          mid = rest.mid ∙ feed.1;
          sent = rest.sent;
          running = rest.running;
        }
    handle_all-Handled (stopped ∷ es) c =
        let rest = handle_all-Handled es (stop num json c) in
        record {
          journal = rest.journal;
          mid = rest.mid;
          sent = rest.sent;
          running = rest.running ∙ either_false (has_stop es);
        }

    handle_all-append :
        (xs ys : List Event) (c : Connection F)
        → handle_all num json setup (xs ++ ys) c
          ≡ handle_all num json setup ys (handle_all num json setup xs c)
    unfolding handle_all
    handle_all-append [] ys c = refl
    handle_all-append (x ∷ xs) ys c = handle_all-append xs ys (handle num json setup x c)

    wait_over :
        (sleeps : List (List Event)) (c : Connection F)
        → c.running ≡ false
        → wait num json setup sleeps c ≡ some c
    unfolding wait
    wait_over [] c h = if_false h none
    wait_over (es ∷ sleeps) c h =
        if_false h (wait num json setup sleeps (handle_all num json setup es c))

    -- The loop ends with the sleep in which the stop came.
    wait-returns :
        (before : List (List Event)) (es : List Event) (after : List (List Event))
        (c : Connection F)
        → Quiet before
        → has_stop es ≡ true
        → c.running ≡ true
        → wait num json setup (before ++ es ∷ after) c
          ≡ some (handle_all num json setup (concat before ++ es) c)
    unfolding wait
    wait-returns [] es after c q s r =
        if_true r (some c)
        ∙ wait_over after (handle_all num json setup es c)
            ((handle_all-Handled es c).running ∙ if_true s c.running)
    wait-returns (b ∷ before) es after c q s r =
        if_true r (some c)
        ∙ wait-returns before es after (handle_all num json setup b c) q.1 s
            ((handle_all-Handled b c).running ∙ if_false q.0 false ∙ r)
        ∙ ap some (
            sym (handle_all-append b (concat before ++ es) c)
            ∙ ap (λ l. handle_all num json setup l c) (sym (append_assoc b (concat before) es)))

  -- Where no stop comes during some sleeps of the main loop and one during the next, main
  -- returns then: the ticks that have left the journal, to a file or dropped, are those of
  -- the ticker messages up to the end of that sleep, each once and in order, the published
  -- mid price is that of the last of them or 0, and what was sent is one subscription for
  -- each Open.
  pub main-Recorded :
      (args : List Text) (env : Option Text) (file_name : ℕ → Text) (before : List (List Event))
      (es : List Event) (after : List (List Event))
      → Quiet before
      → has_stop es ≡ true
      → (c : Connection F) × (main num json args env file_name (before ++ es ∷ after) ≡ some c)
        × (map (λ (h : Option Text × BtcTick F). h.1) c.feed.journal.history
            ≡ map (λ (t : Bool × BtcTick F). t.1) (ticks_of (concat before ++ es)))
        × (c.feed.mid ≡ last_mid (ticks_of (concat before ++ es)) (decimal 0 0))
        × (c.sent ≡ subscriptions (concat before ++ es))
  unfolding main run new_connection stop
  main-Recorded args env file_name before es after q s =
      let setup : Setup = main_setup num json args env file_name in
      let start : Connection F = new_connection num json in
      let all = concat before ++ es in
      let h = handle_all-Handled setup all start in
      let end : Connection F = handle_all num json setup all start in
      (
        record (stop num json end) { feed = record end.feed { journal = close end.feed.journal } },
        rw (main, run, wait-returns setup before es after start q s refl) refl,
        ap (λ j. map (λ (h : Option Text × BtcTick F). h.1) (close j).history) h.journal
            ∙ close-write_all setup (ticks_of all),
        h.mid,
        h.sent,
      )
