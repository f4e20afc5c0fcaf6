-- ===== src/Tests/Pipeline.antt =====
-- Ring, tickerplant, book, journals and feeds at concrete inputs.
use native.Mathlib.Nat.{dvd-mul_left}
use polymarket_tickscope.Base.{
  ℕ, zero, suc, ◌^◌, ◌≡◌, refl, List, [], ◌∷◌, Bool, true, false, none, some, arith, ltb,
  ℕ_discrete,
}
use polymarket_tickscope.Base.Text.{codes, c_str}
use polymarket_tickscope.Base.Dict.{find}
use polymarket_tickscope.Core.{Tick}
use polymarket_tickscope.Tests.Fixed.{ℤ, pos, fixed}
use polymarket_tickscope.Rdb.{
  OrderBook, empty_market, empty_book, apply_tick, apply_ticks, key_of, write_side, find_index,
}
use polymarket_tickscope.Rdb.Invariant.{
  IsValid, apply_tick-IsValid, apply_ticks-IsValid, empty_book-IsValid,
}
use polymarket_tickscope.Rdb.Quotes.{quote, replay, apply_tick-quote, apply_ticks-quote}
use polymarket_tickscope.Tickerplant.{Setup, TickQueue, Round, Plant, start, drain}
use polymarket_tickscope.Tickerplant.Source.{ring_queue}
use polymarket_tickscope.Tickerplant.Drain.{Recorded}
use polymarket_tickscope.Tickerplant.Session.{
  Event, arrives, rounds, accepted, length-accepted-le, session-Recorded,
}
use polymarket_tickscope.Tickerplant.Session
use polymarket_tickscope.Tickerplant.Thread.{arrived, asked, turned, destroy}
use polymarket_tickscope.Tickerplant.Thread
use polymarket_tickscope.Tickerplant.Thread.Drained.{Ended}
use polymarket_tickscope.Tickerplant.Thread.Stopped.{lived, destroy-Recorded}
use polymarket_tickscope.Ring.{RingBuffer, init}
use polymarket_tickscope.Ring.Holds.{IsCapacity}
use polymarket_tickscope.Ring.Queue.{Op, produces, consumes, push}
use polymarket_tickscope.Ring.Queue
use polymarket_tickscope.Ring.Refine.{run, init-Holds, run_refines}

abbrev ring : RingBuffer ℕ
ring = init 4 0

abbrev ops : List (Op ℕ)
ops = produces 1 ∷ produces 2 ∷ consumes ∷ produces 3 ∷ consumes ∷ []

pub four : IsCapacity 4
four = record {
  divides = dvd-mul_left 4 (2 ^ 62);
  above_one = omega arith;
  below_word = omega arith;
}

run_refines_example : run 4 ring ops ≡ Queue.run 4 [] ops
run_refines_example = run_refines 4 four ops [] (init-Holds 4 four 0)

-- Two price changes of one token and a trade.
abbrev pub tick_of : ℕ → ℕ → Tick ℤ
tick_of event_type price = record {
  timestamp = 0;
  price = pos price;
  size = pos 1;
  best_bid = pos 0;
  best_ask = pos 0;
  side = 0;
  event_type = event_type;
  asset_id = codes "token";
}

abbrev pub setup : Setup
setup = record {
  journal_dir = codes "data/";
  rotation_interval_minutes = 15;
  file_name = λ time. time ∷ [];
}

abbrev pub quiet : ℕ → Round
quiet now = record { force_rotate = false; now = now; opens = true }

abbrev session : List (Event ℤ)
session =
    arrives (tick_of 0 3) ∷ rounds (quiet 0) ∷ arrives (tick_of 0 5) ∷ arrives (tick_of 1 4) ∷ []

abbrev pub queue : TickQueue ℤ
queue = ring_queue 4 four

abbrev pub empty_ring : RingBuffer (Tick ℤ)
empty_ring = init 4 (tick_of 0 0)

abbrev plant : Plant ℤ
plant = start setup 0 (empty_book fixed)

session-Recorded_example :
    Recorded setup
      (empty_book fixed)
      (drain setup queue 9 (Session.run setup queue session (plant, empty_ring))).0
      (accepted setup queue session (plant, empty_ring))
    × queue.Holds (drain setup queue 9 (Session.run setup queue session (plant, empty_ring))).1 []
session-Recorded_example =
    session-Recorded setup queue (empty_book fixed) 0 empty_ring session 9
      (0, init-Holds 4 four (tick_of 0 0)) (refl, tt)
      (omega (arith, length-accepted-le setup queue session (plant, empty_ring)))

-- Ticks before the start and after it, and a forced rotation between them.
abbrev early : List (Thread.Step ℤ)
early = arrived (tick_of 0 5) ∷ asked ∷ []

abbrev busy : List (Thread.Step ℤ)
busy = turned 0 true ∷ arrived (tick_of 0 6) ∷ arrived (tick_of 1 7) ∷ asked ∷ turned 0 true ∷ []

abbrev last_turns : List (ℕ × Bool)
last_turns =
    (0, true)
    ∷ (0, true)
    ∷ (0, true)
    ∷ (0, true)
    ∷ (0, true)
    ∷ (0, true)
    ∷ (0, true)
    ∷ (0, true)
    ∷ (0, true)
    ∷ []

destroy-Recorded_example :
    Ended setup queue
      (empty_book fixed)
      (destroy setup queue last_turns
        (lived setup queue (empty_book fixed) 0 0 empty_ring early busy))
      (lived setup queue (empty_book fixed) 0 0 empty_ring early busy).taken
destroy-Recorded_example =
    destroy-Recorded setup queue (empty_book fixed) 0 0 empty_ring early busy last_turns
      (0, init-Holds 4 four (tick_of 0 0)) tt (refl, (refl, tt)) (omega arith)

-- So many rounds, a quarter past midnight.
turns : ℕ → List (Event ℤ)
turns zero = []
turns (suc n) = rounds (quiet 900) ∷ turns n

key : key_of (tick_of 0 3) ≡ codes "token"
unfolding c_str ℕ_discrete
key = refl

unquoted : quote (codes "token") (empty_book fixed) ≡ none
unfolding quote empty_book find find_index
unquoted = refl

room : ltb (empty_book fixed).next_idx 4096 ≡ true
unfolding empty_book
room = refl

written :
    write_side (tick_of 0 3) (empty_market fixed)
    ≡ record (empty_market fixed) { best_bid_price = pos 3; best_bid_size = pos 1 }
unfolding write_side ℕ_discrete
written = refl

first_quoted :
    quote (codes "token") (apply_tick (tick_of 0 3) (empty_book fixed))
    ≡ some (record (empty_market fixed) { best_bid_price = pos 3; best_bid_size = pos 1 })
first_quoted = ground (
  arith,
  apply_tick-quote (empty_market fixed) (tick_of 0 3) (empty_book fixed) (codes "token")
      (empty_book-IsValid fixed),
  key,
  unquoted,
  room,
  written,
)

abbrev one_tick : OrderBook ℤ
one_tick = apply_tick (tick_of 0 3) (empty_book fixed)

one_tick-IsValid : IsValid (empty_market fixed) one_tick
one_tick-IsValid = apply_tick-IsValid _ (tick_of 0 3) (empty_book fixed) (empty_book-IsValid fixed)

apply_ticks-quote_example :
    quote (codes "token") (apply_ticks (tick_of 0 5 ∷ []) one_tick)
    ≡ some (
        replay
          (codes "token")
          (tick_of 0 5 ∷ [])
          (record (empty_market fixed) { best_bid_price = pos 3; best_bid_size = pos 1 }))
apply_ticks-quote_example =
    apply_ticks-quote (empty_market fixed) (tick_of 0 5 ∷ []) one_tick (codes "token") _
      one_tick-IsValid first_quoted

apply_ticks-IsValid_example :
    IsValid (empty_market fixed) (apply_ticks (tick_of 0 3 ∷ tick_of 0 5 ∷ []) (empty_book fixed))
apply_ticks-IsValid_example =
    apply_ticks-IsValid (empty_market fixed) (tick_of 0 3 ∷ tick_of 0 5 ∷ []) (empty_book fixed)
      (empty_book-IsValid fixed)
