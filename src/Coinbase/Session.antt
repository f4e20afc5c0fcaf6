-- ===== src/Coinbase/Session.antt =====
-- src/coinbase/CoinbaseFeed.cpp: the connection, with what the I/O thread's callback, `run` and `stop`
-- do to it; and `main` of src/coinbase/main.cpp around it. IXWebSocket and its reconnecting, the
-- pinning of the thread and the log are outside. `sent` is what ws.sendText was given.
pub mod Recorded
use polymarket_tickscope.Base.{
  ℕ, ◌*◌, ◌%◌, ◌<◌, word_mod, arith, List, [], ◌∷◌, ◌++◌, Bool, true, false, Option, none, some,
  if◌then◌else◌,
}
use polymarket_tickscope.Base.Text.{Text, codes}
use polymarket_tickscope.Base.Json.{Json}
use polymarket_tickscope.Base.Double.{Double}
use polymarket_tickscope.Coinbase.Journal.{Setup, new_journal, close}
use polymarket_tickscope.Coinbase.Feed.{CoinbaseFeed, on_message}

pub fifteen_minutes : 0 < 15 * 60 * 1000 % word_mod
fifteen_minutes = omega arith

pub record Connection (F : Type 0) : Type 0 where
  pub running : Bool
  pub sent : List Text
  pub feed : CoinbaseFeed F

-- A message of the socket, or the signal's `stop`. An arrival has whether a journal file that it
-- needs opens, and the clock.
pub data Event : Type 0 where
  opened : Event
  disconnected : Event
  failed : Event
  arrived : (opens : Bool) → (now_ms : ℕ) → (payload : Text) → Event
  stopped : Event

unfoldable pub subscription : Text
subscription =
    codes "{\"type\":\"subscribe\",\"product_ids\":[\"BTC-USD\"],\"channels\":[\"ticker\"]}"

-- `argv[1]`, or else the environment's variable, or else the default.
unfoldable pub resolve_data_dir : List Text → Option Text → Text
resolve_data_dir (program ∷ dir ∷ args) env = dir
resolve_data_dir (program ∷ []) (some (c ∷ cs)) = c ∷ cs
resolve_data_dir (program ∷ []) (some []) = codes "./data"
resolve_data_dir (program ∷ []) none = codes "./data"
resolve_data_dir [] (some (c ∷ cs)) = c ∷ cs
resolve_data_dir [] (some []) = codes "./data"
resolve_data_dir [] none = codes "./data"

module _ (num : Double) (json : Json num.F) where
  open num use {F, decimal}

  -- The constructor, on a new journal.
  pub new_connection : Connection F
  new_connection = record {
    running = true;
    sent = [];
    feed = record { mid = decimal 0 0; journal = new_journal };
  }

  pub stop : Connection F → Connection F
  stop c = record c { running = false }

  module _ (setup : Setup) where
    -- The callback, and `stop`, which the signal handler calls.
    unfoldable pub handle : Event → Connection F → Connection F
    handle opened c = record c { sent = c.sent ++ subscription ∷ [] }
    handle disconnected c = c
    handle failed c = c
    handle (arrived opens now_ms payload) c = record c {
      feed = on_message num json setup opens now_ms payload c.feed;
    }
    handle stopped c = stop c

    unfoldable pub handle_all : List Event → Connection F → Connection F
    handle_all [] c = c
    handle_all (e ∷ es) c = handle_all es (handle e c)

    -- The loop that sleeps until `stop`, with the events of each sleep; none while it still waits.
    unfoldable pub wait : List (List Event) → Connection F → Option (Connection F)
    wait [] c = if c.running then none else some c
    wait (es ∷ sleeps) c =
        let rest = wait sleeps (handle_all es c) in if c.running then rest else some c

    -- Without a start where `stop` came first.
    unfoldable pub run : List (List Event) → Connection F → Option (Connection F)
    run sleeps c = if c.running then wait sleeps c else some c

  -- Every 15 minutes a new journal file.
  abbrev pub main_setup : List Text → Option Text → (ℕ → Text) → Setup
  main_setup args env file_name = record {
    data_dir = resolve_data_dir args env;
    rotation_minutes = 15;
    period = fifteen_minutes;
    file_name = file_name;
  }

  -- The objects are destroyed at the end, which closes the journal.
  pub main : List Text → Option Text → (ℕ → Text) → List (List Event) → Option (Connection F)
  main args env file_name sleeps =
      elim (run (main_setup args env file_name) sleeps new_connection) [
        | none ↦ none
        | some c ↦
            some (record (stop c) { feed = record c.feed { journal = close c.feed.journal } })
      ]
