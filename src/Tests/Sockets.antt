-- ===== src/Tests/Sockets.antt =====
-- The WebSocket client at concrete inputs.
use polymarket_tickscope.Base.{◌≡◌, ◌+◌, ◌<◌, refl, List, [], ◌∷◌, ◌++◌, true, false, some, arith}
use polymarket_tickscope.Base.Text.{Text, codes}
use polymarket_tickscope.Gateway.Subscription.{build_subscription_json, extend}
use polymarket_tickscope.Gateway.Subscription.Extend.{extend-build_subscription_json}
use polymarket_tickscope.Gateway.Client.{
  Client, new_client, on_open, on_close, extend_full, mark_open, Event, closed, extended, step, run,
  rounds, stale_timeout_ms,
}
use polymarket_tickscope.Gateway.Client.Replay.{tokens_of, on_open-run}
use polymarket_tickscope.Gateway.Client.Watchdog.{rounds-restarts}
use polymarket_tickscope.Tests.Fixed.{fixed}
use polymarket_tickscope.Tests.Feeds.{message}
use polymarket_tickscope.Tests.Pipeline.{queue, empty_ring}

abbrev first : List Text
first = codes "1" ∷ []

abbrev second : List Text
second = codes "2" ∷ codes "3" ∷ []

extend-build_subscription_json_example :
    extend second (build_subscription_json first) ≡ build_subscription_json (first ++ second)
extend-build_subscription_json_example = extend-build_subscription_json first second

abbrev events : List Event
events = extended second ∷ closed ∷ []

abbrev after : Client
after = record (new_client first) {
  full_subscription_json = extend second (new_client first).full_subscription_json;
}

ran :
    run fixed message queue events (new_client first, empty_ring)
    ≡ some (on_close (extend_full second (new_client first)), empty_ring)
unfolding run step
ran = refl

on_open-run_example :
    (on_open 7 (on_close (extend_full second (new_client first)))).sent
    ≡ (on_close (extend_full second (new_client first))).sent
      ++ build_subscription_json (first ++ tokens_of events) ∷ []
on_open-run_example =
    on_open-run fixed message queue events first 7 empty_ring empty_ring
      (on_close (extend_full second (new_client first))) ran

abbrev live : Client
live = mark_open 1000 (new_client first)

is_open : live.connected ≡ true
unfolding mark_open
is_open = refl

has_time : 0 < live.last_msg_ms
unfolding mark_open
has_time = omega arith

is_late : live.last_msg_ms + stale_timeout_ms < 100000
unfolding mark_open stale_timeout_ms
is_late = omega arith

rounds-restarts_example :
    ((rounds ((2000, 2000) ∷ (100000, 100001) ∷ (200000, 200001) ∷ []) live).restarts
      ≡ live.restarts + 1)
    × ((rounds ((2000, 2000) ∷ (100000, 100001) ∷ (200000, 200001) ∷ []) live).connected ≡ false)
rounds-restarts_example =
    rounds-restarts ((2000, 2000) ∷ []) ((200000, 200001) ∷ []) 100000 100001 live is_open has_time
      is_late
