-- ===== src/Coinbase/Journal.antt =====
-- src/coinbase/BtcJournal.hpp: the buffered journal of BTC ticks, one file per segment of time.
-- Parameters: the text that gmtime_r and snprintf make of a time, and whether fopen succeeds.
-- `buf` is `buf_[0 .. buf_pos_)`, and `history` records what became of each tick that left it: the
-- file that fwrite sent it to, or none where it was dropped. fflush and fclose leave no trace.
pub mod Conserved
pub mod Segments
use polymarket_tickscope.Base.{
  ℕ, zero, suc, ◌+◌, ◌-◌, ◌*◌, ◌/◌, ◌%◌, ◌<◌, List, [], ◌∷◌, ◌++◌, map, Bool, true, false, Option,
  none, some, ltb, leb, ◌==◌, if◌then◌else◌, word_mod, length, take,
}
use polymarket_tickscope.Base.Text.{Text}
use polymarket_tickscope.Core.{BtcTick}

-- The period in ms is not 0, since the journal divides by it.
pub record Setup : Type 0 where
  pub data_dir : Text
  pub rotation_minutes : ℕ
  pub period : 0 < rotation_minutes * 60 * 1000 % word_mod
  pub file_name : ℕ → Text

pub record BtcJournal (F : Type 0) : Type 0 where
  pub file : Option Text
  pub segment_start_ms : ℕ
  pub ticks_written : ℕ
  pub buf : List (BtcTick F)
  pub history : List (Option Text × BtcTick F)

unfoldable pub buf_cap : ℕ
buf_cap = 1024

module _ {F : Type 0} where
  pub new_journal : BtcJournal F
  new_journal = record {
    file = none;
    segment_start_ms = 0;
    ticks_written = 0;
    buf = [];
    history = [];
  }

  -- An empty buffer returns at once; without a file the ticks are dropped.
  pub flush : BtcJournal F → BtcJournal F
  flush j = record j { buf = []; history = j.history ++ map (λ t. (j.file, t)) j.buf }

  -- `if (buf_pos_ >= BUF_CAP) flush();`
  pub flush_full : BtcJournal F → BtcJournal F
  flush_full j = if leb buf_cap (length j.buf) then flush j else j

  -- `buf_[buf_pos_++] = tick; ++ticks_written_;`
  pub store : BtcTick F → BtcJournal F → BtcJournal F
  store tick j = record j {
    buf = j.buf ++ tick ∷ [];
    ticks_written = (j.ticks_written + 1) % word_mod;
  }

  unfoldable pub elapsed_ms : ℕ → BtcJournal F → ℕ
  elapsed_ms ts_ms j = if ltb j.segment_start_ms ts_ms then ts_ms - j.segment_start_ms else 0

  pub close_segment : BtcJournal F → BtcJournal F
  close_segment j = record j { file = none }

  -- The destructor.
  pub close : BtcJournal F → BtcJournal F
  close j = close_segment (flush j)

module _ (setup : Setup) where
  open setup use {data_dir, rotation_minutes, file_name}

  unfoldable pub rotation_ms : ℕ
  rotation_ms = rotation_minutes * 60 * 1000 % word_mod

  -- `fname` holds 127 characters and the NUL.
  unfoldable pub segment_path : ℕ → Text
  segment_path segment_start_ms = take 127 (data_dir ++ file_name (segment_start_ms / 1000))

module _ {F : Type 0} (setup : Setup) where
  pub open_segment : Bool → ℕ → BtcJournal F → BtcJournal F
  open_segment opens ts_ms j =
      let start = ts_ms / rotation_ms setup * rotation_ms setup in
      record j {
        segment_start_ms = start;
        file = if opens then some (segment_path setup start) else none;
      }

  pub rotate_if_needed : Bool → ℕ → BtcJournal F → BtcJournal F
  rotate_if_needed opens ts_ms j = elim j.file [
    | none ↦ open_segment opens ts_ms j
    | some _ ↦
        if leb (rotation_ms setup) (elapsed_ms ts_ms j)
        then open_segment opens ts_ms (close_segment (flush j))
        else j
  ]

  pub write : Bool → BtcTick F → BtcJournal F → BtcJournal F
  write opens tick j =
      flush_full (store tick (flush_full (rotate_if_needed opens tick.timestamp j)))

  -- Ticks in order, each with whether a file that it needs opens.
  unfoldable pub write_all : List (Bool × BtcTick F) → BtcJournal F → BtcJournal F
  write_all [] j = j
  write_all ((opens, tick) ∷ ts) j = write_all ts (write opens tick j)
