-- ===== src/Tickerplant/Thread.antt =====
-- src/tickerplant/Tickerplant.cpp: the consumer's thread, from `start` to its join, with the requests
-- that other threads make of it. A round of the loop, a tick of the drain, and each call are one
-- step. fclose in the destructor leaves no trace in this state.
pub mod Taken
pub mod Drained
pub mod Stopped
use polymarket_tickscope.Base.{
  ℕ, List, [], ◌∷◌, ◌++◌, Bool, true, false, Option, none, some, if◌then◌else◌,
}
use polymarket_tickscope.Core.{Tick}
use polymarket_tickscope.Rdb.{OrderBook}
use polymarket_tickscope.Tickerplant.{Setup, TickQueue, Plant, round, record_tick}
use polymarket_tickscope.Tickerplant

-- Where the consumer is: not started, in the loop, in the final drain, or at the end of `run`.
pub data Pc : Type 0 where
  constructed looping draining finished : Pc

-- What can happen while the plant is up. `turned` has the clock and whether a file opens.
pub data Step (F : Type 0) : Type 0 where
  arrived : Tick F → Step F
  asked : Step F
  turned : (now : ℕ) (opens : Bool) → Step F

module _ {F : Type 0} (setup : Setup) (queue : TickQueue F) where
  open queue use {State, produce, consume}

  -- `taken` logs the ticks that the queue took; the program does not read it.
  pub record Thread : Type 0 where
    pub plant : Plant F
    pub ring : State
    pub running : Bool
    pub force_rotate : Bool
    pub pc : Pc
    pub taken : List (Tick F)

  abbrev pub construct : ℕ → OrderBook F → State → Thread
  construct now book ring = record {
    plant = Tickerplant.start setup now book;
    ring = ring;
    running = false;
    force_rotate = false;
    pc = constructed;
    taken = [];
  }

  -- `start()`, with the first lines of `run`, which read the clock.
  abbrev pub start : ℕ → Thread → Thread
  start now t = record t {
    plant = record t.plant { loop_iters = 0; last_maintenance = now };
    running = true;
    pc = looping;
  }

  abbrev pub stop : Thread → Thread
  stop t = record t { running = false }

  abbrev pub force_rotate : Thread → Thread
  force_rotate t = record t { force_rotate = true }

  -- A round of the loop, which clears the request that it has seen.
  abbrev pub loop : ℕ → Bool → Thread → Thread
  loop now opens t =
      let r : Tickerplant.Round = record {
        force_rotate = t.force_rotate;
        now = now;
        opens = opens;
      } in
      let (p, s) = round setup queue r (t.plant, t.ring) in
      record t { plant = p; ring = s; force_rotate = false }

  unfoldable pub drain_one : Thread → Thread
  drain_one t = elim (consume t.ring) [
    | none ↦ record t { pc = finished }
    | some (tick, s) ↦ record t { plant = record_tick setup tick t.plant; ring = s }
  ]

  unfoldable pub turn_at : Pc → ℕ → Bool → Thread → Thread
  turn_at constructed now opens t = t
  turn_at looping now opens t = if t.running then loop now opens t else record t { pc = draining }
  turn_at draining now opens t = drain_one t
  turn_at finished now opens t = t

  abbrev pub turn : ℕ → Bool → Thread → Thread
  turn now opens t = turn_at t.pc now opens t

  unfoldable pub step : Step F → Thread → Thread
  step (arrived tick) t = record t {
    ring = (produce tick t.ring).1;
    taken = if (produce tick t.ring).0 then t.taken ++ tick ∷ [] else t.taken;
  }
  step asked t = force_rotate t
  step (turned now opens) t = turn now opens t

  unfoldable pub run : List (Step F) → Thread → Thread
  run [] t = t
  run (e ∷ es) t = run es (step e t)

  unfoldable pub turns : List (ℕ × Bool) → Thread → Thread
  turns [] t = t
  turns ((now, opens) ∷ rest) t = turns rest (turn now opens t)

  -- The destructor: `stop()`, then the consumer's turns until the join.
  pub destroy : List (ℕ × Bool) → Thread → Thread
  destroy rest t = turns rest (stop t)
