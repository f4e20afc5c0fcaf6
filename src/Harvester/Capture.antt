-- ===== src/Harvester/Capture.antt =====
-- src/harvester/main.cpp: the pipeline that `main` builds on `g_ring`. The client's I/O thread takes
-- messages and offers their ticks to the ring, the tickerplant's thread consumes them, and the other
-- threads call `subscribe`, `stop` and the watchdog. Each step is one thread's; the I/O thread can be
-- in the middle of a message when another thread acts. After `wsc.run()` has joined the I/O thread,
-- `tp.stop()` ends the tickerplant's loop, and it drains the ring.
pub mod Follows
pub mod Recorded
use polymarket_tickscope.Base.{
  ℕ, List, [], ◌∷◌, ◌++◌, Bool, true, false, ◌&&◌, Option, none, some, ltb, length, if◌then◌else◌,
}
use polymarket_tickscope.Base.Text.{Text}
use polymarket_tickscope.Base.Json.{Json}
use polymarket_tickscope.Base.Double.{Double}
use polymarket_tickscope.Core.{Tick}
use polymarket_tickscope.Rdb.{OrderBook}
use polymarket_tickscope.Tickerplant.{Setup, TickQueue, Plant, start, round, drain}
use polymarket_tickscope.Tickerplant
use polymarket_tickscope.Tickerplant.Session.{arrives, rounds}
use polymarket_tickscope.Tickerplant.Session
use polymarket_tickscope.Feedhandler.{push_tick}
use polymarket_tickscope.Feedhandler.Work.{Round, pushes, throws, work_of}
use polymarket_tickscope.Gateway.Client.{
  Client, max_payload_bytes, new_client, send_full, mark_open, on_close, extend_full, send_new,
  drop_connection, restart, stop, receive, sent_full, marked, closed, arrived, extended, sent_new,
  dropped, restarted, stopped,
}
use polymarket_tickscope.Gateway.Client

-- A step of the client's threads, of the loop over a message's elements, or of the tickerplant.
pub data Event : Type 0 where
  client : (e : Client.Event) → Event
  element : Event
  plant : (r : Tickerplant.Round) → Event

-- What the client's own state becomes.
unfoldable pub client_step : Client.Event → Client → Client
client_step sent_full c = send_full c
client_step (marked now) c = mark_open now c
client_step closed c = on_close c
client_step (arrived now payload) c = receive now payload c
client_step (extended tokens) c = extend_full tokens c
client_step (sent_new tokens) c = send_new tokens c
client_step dropped c = drop_connection c
client_step (restarted later) c = restart later c
client_step stopped c = stop c

-- The callback runs on the I/O thread, which takes one message after the other.
unfoldable pub is_callback : Client.Event → Bool
is_callback sent_full = true
is_callback (marked now) = true
is_callback closed = true
is_callback (arrived now payload) = true
is_callback (extended tokens) = false
is_callback (sent_new tokens) = false
is_callback dropped = false
is_callback (restarted later) = false
is_callback stopped = false

module _ (num : Double) (json : Json num.F) where
  open num use {F}

  -- The rounds of the loop that a message brings; an oversized one is dropped.
  unfoldable pub load : Client.Event → List (Round F)
  load (arrived now payload) =
      if ltb max_payload_bytes (length payload) then [] else work_of num json payload
  load sent_full = []
  load (marked now) = []
  load closed = []
  load (extended tokens) = []
  load (sent_new tokens) = []
  load dropped = []
  load (restarted later) = []
  load stopped = []

  abbrev pub is_busy : List (Round F) → Bool
  is_busy [] = false
  is_busy (_ ∷ _) = true

  module _ (setup : Setup) (queue : TickQueue F) where
    open queue use {State, produce}

    -- `work` is what the I/O thread has left of its message.
    pub record Capture : Type 0 where
      pub wsc : Client
      pub work : List (Round F)
      pub ring : State
      pub tp : Plant F

    -- The objects that `main` builds, at a time, on a ring.
    unfoldable pub open_capture : List Text → ℕ → OrderBook F → State → Capture
    open_capture token_ids now book ring = record {
      wsc = new_client token_ids;
      work = [];
      ring = ring;
      tp = start setup now book;
    }

    -- One round of the loop over a message; a throw ends the program.
    unfoldable pub iterate : List (Round F) → Capture → Option Capture
    iterate [] s = some s
    iterate (pushes tick ∷ rs) s =
        some (record s { work = rs; ring = push_tick num json queue tick s.ring })
    iterate (throws ∷ rs) s = none

    -- A callback waits while the I/O thread is busy.
    unfoldable pub is_blocked : Client.Event → Capture → Bool
    is_blocked e s = is_callback e && is_busy s.work

    unfoldable pub step : Event → Capture → Option Capture
    step (client e) s =
        if is_blocked e s
        then some s
        else some (record s { wsc = client_step e s.wsc; work = s.work ++ load e })
    step element s = iterate s.work s
    step (plant r) s =
        let next = round setup queue r (s.tp, s.ring) in
        some (record s { tp = next.0; ring = next.1 })

    unfoldable pub run : List Event → Capture → Option Capture
    run [] s = some s
    run (e ∷ es) s = elim (step e s) [ none ↦ none | some next ↦ run es next ]

    -- The tickerplant after its final pass over the ring.
    pub shutdown : ℕ → Capture → Plant F × State
    shutdown fuel s = drain setup queue fuel (s.tp, s.ring)

    -- The ticks among the rounds of a message.
    unfoldable pub ticks_in : List (Round F) → List (Tick F)
    ticks_in [] = []
    ticks_in (pushes (some tick) ∷ rs) = tick ∷ ticks_in rs
    ticks_in (pushes none ∷ rs) = ticks_in rs
    ticks_in (throws ∷ rs) = ticks_in rs

    -- Those that a step brings.
    unfoldable pub carried_by : Event → Capture → List (Tick F)
    carried_by (client e) s = if is_blocked e s then [] else ticks_in (load e)
    carried_by element s = []
    carried_by (plant r) s = []

    -- The ticks of the messages that the callback took, in order.
    unfoldable pub carried : List Event → Capture → List (Tick F)
    carried [] s = []
    carried (e ∷ es) s =
        carried_by e s ++ elim (step e s) [ none ↦ [] | some next ↦ carried es next ]
