-- ===== src/Tests/Captures.antt =====
-- The harvester's pipeline and its end at concrete inputs.
use polymarket_tickscope.Base.{◌≡◌, ◌≢◌, ◌≤◌, ◌++◌, refl, List, [], ◌∷◌, some, arith}
use polymarket_tickscope.Base.Text.{Text, codes}
use polymarket_tickscope.Rdb.{empty_book}
use polymarket_tickscope.Tickerplant.Drain.{Recorded}
use polymarket_tickscope.Tickerplant.Session.{accepted}
use polymarket_tickscope.Gateway.Client.{arrived, sent_full, extended}
use polymarket_tickscope.Harvester.Capture.{
  Event, client, element, plant, Capture, open_capture, run, shutdown, ticks_in, carried,
}
use polymarket_tickscope.Harvester.Capture.Follows.{arrivals, trace, side}
use polymarket_tickscope.Harvester.Capture.Recorded.{ObjectsOnly, shutdown-run-Recorded}
use polymarket_tickscope.Harvester.Life.{main_step, check_step, signal, begun, finished, sleep}
use polymarket_tickscope.Harvester.Life
use polymarket_tickscope.Harvester.Life.Ends.{main_steps, run-finished}
use polymarket_tickscope.Harvester.Life.Hangs.{early_signal}
use polymarket_tickscope.Ring.Refine.{init-Holds}
use polymarket_tickscope.Tests.Fixed.{fixed}
use polymarket_tickscope.Tests.Feeds.{message, all_objects}
use polymarket_tickscope.Tests.Pipeline.{setup, quiet, four, queue, empty_ring, tick_of}

abbrev tokens : List Text
tokens = codes "1" ∷ []

-- A message whose tick is still to be offered when the tickerplant turns, and one after it.
abbrev events : List Event
events =
    client sent_full
    ∷ client (arrived 5 (codes "x"))
    ∷ plant (quiet 0)
    ∷ element
    ∷ client (extended tokens)
    ∷ client (arrived 6 (codes "y"))
    ∷ element
    ∷ []

abbrev begun_capture : Capture fixed message setup queue
begun_capture = open_capture fixed message setup queue tokens 0 (empty_book fixed) empty_ring

objects : ObjectsOnly fixed message setup queue
objects obj = all_objects

shutdown-run-Recorded_example :
    (last : Capture fixed message setup queue) × (run fixed message setup queue events begun_capture
      ≡ some last)
    × Recorded setup (empty_book fixed) (shutdown fixed message setup queue 9 last).0 (
        accepted setup queue
          (trace fixed message setup queue events begun_capture)
          (side fixed message setup queue begun_capture))
    × queue.Holds (shutdown fixed message setup queue 9 last).1 []
    × (carried fixed message setup queue events begun_capture
        ≡ arrivals (trace fixed message setup queue events begun_capture)
          ++ ticks_in fixed message setup queue last.work)
shutdown-run-Recorded_example =
    shutdown-run-Recorded fixed message setup queue (empty_book fixed) tokens 0 empty_ring events 9
      (0, init-Holds 4 four (tick_of 0 0)) (refl, tt) (omega arith) objects

run-finished_example :
    (Life.run
      (main_step ∷ main_step ∷ (main_step ∷ check_step ∷ [])
        ++ (signal ∷ ((main_step ∷ []) ++ (check_step ∷ main_step ∷ main_step ∷ main_step ∷ []))))
      begun).pc
    ≡ finished
run-finished_example =
    run-finished (main_step ∷ check_step ∷ []) (main_step ∷ [])
      (main_step ∷ main_step ∷ main_step ∷ []) tt enough
  where
    enough : 3 ≤ main_steps (main_step ∷ main_step ∷ main_step ∷ [])
    enough = unfold main_steps in omega arith

early_signal_example :
    (Life.run (main_step ∷ signal ∷ main_step ∷ main_step ∷ check_step ∷ main_step ∷ []) begun).pc
    ≢ finished
early_signal_example = early_signal (main_step ∷ check_step ∷ main_step ∷ []) tt
