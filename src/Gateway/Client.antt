-- ===== src/Gateway/Client.antt =====
-- src/gateway/WebSocketClient.cpp: the state that the I/O thread's callback, the watchdog of `run`
-- and `subscribe` share. `sent` records what ws.send was given and
-- `restarts` how often the watchdog stopped and started the socket. The socket itself, the pinning
-- of the thread and the log are outside. A time is in milliseconds and not negative.
pub mod Replay
pub mod Watchdog
use polymarket_tickscope.Base.{
  ℕ, ◌+◌, ◌-◌, ◌*◌, ◌%◌, List, [], ◌∷◌, ◌++◌, Bool, true, false, ◌&&◌, Option, none, some, ltb,
  if◌then◌else◌, length, word_mod,
}
use polymarket_tickscope.Base.Text.{Text}
use polymarket_tickscope.Base.Json.{Json}
use polymarket_tickscope.Base.Double.{Double}
use polymarket_tickscope.Tickerplant.{TickQueue}
use polymarket_tickscope.Feedhandler.{parse_and_push}
use polymarket_tickscope.Gateway.Subscription.{build_subscription_json, extend}

unfoldable pub max_payload_bytes : ℕ
max_payload_bytes = 64 * 1024

unfoldable pub stale_timeout_ms : ℕ
stale_timeout_ms = 90000

pub record Client : Type 0 where
  pub running : Bool
  pub connected : Bool
  pub last_msg_ms : ℕ
  pub full_subscription_json : Text
  pub oversized_drops : ℕ
  pub sent : List Text
  pub restarts : ℕ

-- The constructor.
pub new_client : List Text → Client
new_client tokens = record {
  running = true;
  connected = false;
  last_msg_ms = 0;
  full_subscription_json = build_subscription_json tokens;
  oversized_drops = 0;
  sent = [];
  restarts = 0;
}

-- The cases of the callback that do not read a payload. The mutex of the full message is given up
-- before `connected` is set, so these are two steps for the other threads.
unfoldable pub send_full : Client → Client
send_full c = record c { sent = c.sent ++ c.full_subscription_json ∷ [] }

unfoldable pub mark_open : ℕ → Client → Client
mark_open now c = record c { last_msg_ms = now; connected = true }

pub on_open : ℕ → Client → Client
on_open now c = mark_open now (send_full c)

pub on_close : Client → Client
on_close c = record c { connected = false }

pub stop : Client → Client
stop c = record c { running = false }

-- The two steps of `subscribe`, with the mutex and after it.
unfoldable pub extend_full : List Text → Client → Client
extend_full [] c = c
extend_full (t ∷ ts) c = record c {
  full_subscription_json = extend (t ∷ ts) c.full_subscription_json;
}

unfoldable pub send_new : List Text → Client → Client
send_new [] c = c
send_new (t ∷ ts) c =
    if c.connected then record c { sent = c.sent ++ build_subscription_json (t ∷ ts) ∷ [] } else c

pub subscribe : List Text → Client → Client
subscribe new_tokens c = send_new new_tokens (extend_full new_tokens c)

-- Connected, with a time of the last message, which is more than the timeout ago.
unfoldable pub is_stale : ℕ → Client → Bool
is_stale now c = c.connected && (ltb 0 c.last_msg_ms && ltb (c.last_msg_ms + stale_timeout_ms) now)

-- The two stores of a forced reconnect; the stop and start of the socket come with the second.
abbrev pub drop_connection : Client → Client
drop_connection c = record c { connected = false }

abbrev pub restart : ℕ → Client → Client
restart later c = record c { last_msg_ms = later; restarts = c.restarts + 1 }

-- A round of the loop in `run`; the clock is read a second time where it forces a reconnect.
pub watchdog : ℕ → ℕ → Client → Client
watchdog now later c = if is_stale now c then restart later (drop_connection c) else c

-- The rounds of that loop, with no message between them.
unfoldable pub rounds : List (ℕ × ℕ) → Client → Client
rounds [] c = c
rounds ((now, later) ∷ rs) c = rounds rs (watchdog now later c)

-- What a message does to the client itself.
unfoldable pub receive : ℕ → Text → Client → Client
receive now payload c =
    let seen : Client = record c { last_msg_ms = now } in
    if ltb max_payload_bytes (length payload)
    then record seen { oversized_drops = (c.oversized_drops + 1) % word_mod }
    else seen

module _ (num : Double) (json : Json num.F) (queue : TickQueue num.F) where
  open queue use {State}

  -- A message: an oversized one is counted, any other parsed. `none` where parsing ends the program.
  pub on_message : ℕ → Text → Client → State → Option (Client × State)
  on_message now payload c s =
      let seen : Client = record c { last_msg_ms = now } in
      if ltb max_payload_bytes (length payload)
      then some (record seen { oversized_drops = (c.oversized_drops + 1) % word_mod }, s)
      else elim (parse_and_push num json queue payload s) [
        | none ↦ none
        | some s' ↦ some (seen, s')
      ]

-- What happens to the client between its construction and its end, each thread's steps apart. The
-- watchdog decides on what it has read before, so its two stores can come at any time here.
pub data Event : Type 0 where
  sent_full : Event
  marked : (now : ℕ) → Event
  closed : Event
  arrived : (now : ℕ) → (payload : Text) → Event
  extended : (tokens : List Text) → Event
  sent_new : (tokens : List Text) → Event
  dropped : Event
  restarted : (later : ℕ) → Event
  stopped : Event

module _ (num : Double) (json : Json num.F) (queue : TickQueue num.F) where
  open queue use {State}

  unfoldable pub step : Event → Client × State → Option (Client × State)
  step sent_full (c, s) = some (send_full c, s)
  step (marked now) (c, s) = some (mark_open now c, s)
  step closed (c, s) = some (on_close c, s)
  step (arrived now payload) (c, s) = on_message num json queue now payload c s
  step (extended tokens) (c, s) = some (extend_full tokens c, s)
  step (sent_new tokens) (c, s) = some (send_new tokens c, s)
  step dropped (c, s) = some (drop_connection c, s)
  step (restarted later) (c, s) = some (restart later c, s)
  step stopped (c, s) = some (stop c, s)

  unfoldable pub run : List Event → Client × State → Option (Client × State)
  run [] now = some now
  run (e ∷ es) now = elim (step e now) [ none ↦ none | some next ↦ run es next ]
