-- ===== src/Tickerplant.antt =====
-- src/tickerplant/Tickerplant.cpp and its header: the one consumer of the tick queue. It appends
-- each tick to the journal file of the current window and updates the live book.
-- The queue is any implementation of `TickQueue`; Tickerplant/Source.antt is the ring buffer.
-- Outside the model, as parameters: the text that gmtime_r and snprintf make of a time
-- (`file_name`), the clock, and whether fopen succeeds. A file opened with "ab" is only appended
-- to, so `journal` records each fwrite with the path that it goes to. fflush, fclose and the
-- pinning of the thread leave no trace in this state. Times are not negative.
pub mod Windows
pub mod Drain
pub mod Kept
pub mod Session
pub mod Thread
pub mod Source
use polymarket_tickscope.Base.{
  ℕ, zero, suc, ◌+◌, ◌-◌, ◌*◌, ◌/◌, ◌%◌, List, [], ◌∷◌, ◌++◌, Bool, true, false, not, ◌&&◌, Option,
  none, some, ◌≡◌, ltb, ◌==◌, if◌then◌else◌, word_mod,
}
use polymarket_tickscope.Base.Text.{Text}
use polymarket_tickscope.Core.{Tick}
use polymarket_tickscope.Rdb.{OrderBook, apply_tick}

-- The queue between the I/O thread and the tickerplant. `Holds s q`: the ticks `q` wait in `s`,
-- oldest first.
pub record TickQueue (F : Type 0) : Type 1 where
  pub State : Type 0
  pub produce : Tick F → State → Bool × State
  pub consume : State → Option (Tick F × State)
  pub Holds : State → List (Tick F) → Type 0
  pub consume_none : (s : State) → Holds s [] → consume s ≡ none
  pub consume_some :
      (s : State) (x : Tick F) (q : List (Tick F))
      → Holds s (x ∷ q)
      → (s' : State) × (consume s ≡ some (x, s')) × Holds s' q
  pub produce_taken :
      (x : Tick F) (s : State) (q : List (Tick F))
      → Holds s q
      → (produce x s).0 ≡ true
      → Holds (produce x s).1 (q ++ x ∷ [])
  pub produce_dropped :
      (x : Tick F) (s : State) (q : List (Tick F))
      → Holds s q
      → (produce x s).0 ≡ false
      → Holds (produce x s).1 q

-- What the constructor fixes, with the formatting of file names.
pub record Setup : Type 0 where
  pub journal_dir : Text
  pub rotation_interval_minutes : ℕ
  pub file_name : ℕ → Text

pub record Plant (F : Type 0) : Type 0 where
  pub file : Option Text
  pub current_slot : ℕ
  pub ticks_written : ℕ
  pub book : OrderBook F
  pub loop_iters : ℕ
  pub last_maintenance : ℕ
  pub journal : List (Text × Tick F)

-- One round of the hot loop meets: a forced rotation or none, the clock, and whether files open.
pub record Round : Type 0 where
  pub force_rotate : Bool
  pub now : ℕ
  pub opens : Bool

-- `fopen(path, "ab")`, with null for a failure.
abbrev pub fopen : Bool → Text → Option Text
fopen opens path = if opens then some path else none

module _ (setup : Setup) where
  open setup use {journal_dir, rotation_interval_minutes, file_name}

  unfoldable pub time_slot : ℕ → ℕ
  time_slot now =
      if ltb 0 rotation_interval_minutes then now / 60 / rotation_interval_minutes else 0

  -- `now` rounded down to the start of its window.
  unfoldable pub window_start : ℕ → ℕ
  window_start now =
      if ltb 0 rotation_interval_minutes
      then time_slot now * rotation_interval_minutes * 60
      else now

  unfoldable pub make_journal_path : ℕ → Text
  make_journal_path now = journal_dir ++ file_name (window_start now)

module _ {F : Type 0} (setup : Setup) where
  open setup use {rotation_interval_minutes}

  pub rotate : Bool → ℕ → Plant F → Plant F
  rotate opens now p = record p {
    current_slot = time_slot setup now;
    file = fopen opens (make_journal_path setup now);
  }

  -- The constructor; a file that does not open is an exception there.
  pub start : ℕ → OrderBook F → Plant F
  start now book = record {
    file = some (make_journal_path setup now);
    current_slot = time_slot setup now;
    ticks_written = 0;
    book = book;
    loop_iters = 0;
    last_maintenance = now;
    journal = [];
  }

  -- The test-only rotation to the next window.
  pub forced_rotation : Round → Plant F → Plant F
  forced_rotation r p =
      if r.force_rotate
      then record p {
        current_slot = p.current_slot + 1;
        file =
            fopen r.opens
              (make_journal_path setup ((p.current_slot + 1) * rotation_interval_minutes * 60));
      }
      else p

  -- fwrite, where a file is open.
  abbrev pub append_journal : Option Text → Tick F → List (Text × Tick F) → List (Text × Tick F)
  append_journal none tick journal = journal
  append_journal (some path) tick journal = journal ++ (path, tick) ∷ []

  -- What both loops do with a tick: journal, book (price changes only), counter.
  pub record_tick : Tick F → Plant F → Plant F
  record_tick tick p = record p {
    journal = append_journal p.file tick p.journal;
    book = if tick.event_type == 0 then apply_tick tick p.book else p.book;
    ticks_written = (p.ticks_written + 1) % word_mod;
  }

  -- Every 1024 rounds the clock is read, and at most once a second acted on.
  pub maintain : Round → Plant F → Plant F
  unfolding rotate
  maintain r p =
      let iters = (p.loop_iters + 1) % word_mod in
      let counted : Plant F = record p { loop_iters = iters } in
      let noted : Plant F = record counted { last_maintenance = r.now } in
      if not (iters % 1024 == 0)
      then counted
      else if r.now == p.last_maintenance
      then counted
      else if ltb 0 rotation_interval_minutes && not (time_slot setup r.now == p.current_slot)
      then rotate r.opens r.now noted
      else noted

  module _ (queue : TickQueue F) where
    open queue use {State, consume}

    -- The middle of the round: at most one tick.
    pub take_tick : Plant F × State → Plant F × State
    take_tick (p, s) = elim (consume s) [
      | none ↦ (p, s)
      | some (tick, s') ↦ (record_tick tick p, s')
    ]

    pub round : Round → Plant F × State → Plant F × State
    unfolding take_tick
    round r (p, s) = let (p', s') = take_tick (forced_rotation r p, s) in (maintain r p', s')

    -- The drain after `stop()`; the fuel bounds the ticks that wait.
    pub drain : ℕ → Plant F × State → Plant F × State
    drain zero (p, s) = (p, s)
    drain (suc fuel) (p, s) = elim (consume s) [
      | none ↦ (p, s)
      | some (tick, s') ↦ drain fuel (record_tick tick p, s')
    ]
