-- ===== src/Harvester/Life.antt =====
-- src/harvester/main.cpp: how the process is stopped. `main` registers the signal handler, starts the
-- rediscovery thread, blocks in `wsc.run()`, joins that thread and stops the tickerplant; a signal
-- can come between any two of these. Before the handler is registered a signal just ends the
-- process. Also the settings from the environment, and the sleep between two cycles.
pub mod Ends
pub mod Hangs
pub mod Sleep
use polymarket_tickscope.Base.{
  ℕ, suc, ◌+◌, ◌*◌, List, [], ◌∷◌, Bool, true, false, not, ◌&&◌, Option, none, some, ltb,
  if◌then◌else◌,
}
use polymarket_tickscope.Base.Text.{Text, codes}

-- Where `main` is.
pub data Pc : Type 0 where
  constructed registered started joining stopping finished : Pc

pub record Life : Type 0 where
  pub pc : Pc
  pub has_wsc : Bool
  pub wsc_running : Bool
  pub rediscover_running : Bool
  pub rediscovering : Bool
  pub plant_running : Bool

-- The client is constructed and the tickerplant runs.
abbrev pub begun : Life
begun = record {
  pc = constructed;
  has_wsc = false;
  wsc_running = true;
  rediscover_running = false;
  rediscovering = false;
  plant_running = true;
}

-- The handler; `g_wsc` may be null.
unfoldable pub sighandler : Life → Life
sighandler l = record l {
  wsc_running = if l.has_wsc then false else l.wsc_running;
  rediscover_running = false;
}

-- `main` at a place goes on, or waits there.
unfoldable pub advance : Pc → Life → Life
advance constructed l = record l { pc = registered; has_wsc = true }
advance registered l = record l { pc = started; rediscover_running = true; rediscovering = true }
advance started l = if l.wsc_running then l else record l { pc = joining; has_wsc = false }
advance joining l = if l.rediscovering then l else record l { pc = stopping }
advance stopping l = record l { pc = finished; plant_running = false }
advance finished l = l

-- The rediscovery thread looks at its flag, at the latest after 30 seconds of sleep.
unfoldable pub check : Life → Life
check l = if l.rediscover_running then l else record l { rediscovering = false }

pub data Event : Type 0 where
  signal main_step check_step : Event

unfoldable pub step : Event → Life → Life
step signal l = sighandler l
step main_step l = advance l.pc l
step check_step l = check l

unfoldable pub run : List Event → Life → Life
run [] l = l
run (e ∷ es) l = run es (step e l)

-- A setting that is to be positive; `atoi` is a parameter, a sign with a magnitude.
unfoldable pub positive_or : (Text → Bool × ℕ) → ℕ → Option Text → ℕ
positive_or atoi default none = default
positive_or atoi default (some e) =
    let (negative, v) = atoi e in if not negative && ltb 0 v then v else default

unfoldable pub rediscover_mins : (Text → Bool × ℕ) → Option Text → ℕ
rediscover_mins atoi env = positive_or atoi 15 env

-- Without a positive number of days nothing is removed.
unfoldable pub retention_days : (Text → Bool × ℕ) → Option Text → ℕ
retention_days atoi env = positive_or atoi 0 env

unfoldable pub filter_setting : Option Text → Text
filter_setting none = []
filter_setting (some e) = e

unfoldable pub chunk_seconds : ℕ
chunk_seconds = 30

-- The seconds slept, in chunks, with what the flag is at each check.
unfoldable pub sleep_from : ℕ → List Bool → ℕ → ℕ
sleep_from total_seconds [] slept = slept
sleep_from total_seconds (running ∷ flags) slept =
    let rest = sleep_from total_seconds flags (slept + chunk_seconds) in
    if ltb slept total_seconds && running then rest else slept

unfoldable pub sleep : ℕ → List Bool → ℕ
sleep interval_mins flags = sleep_from (interval_mins * 60) flags 0
