-- ===== src/Tickerplant/Windows.antt =====
-- src/tickerplant/Tickerplant.cpp: the windows that the journal is cut into, and the file that is
-- open for each.
use polymarket_tickscope.Base.{
  ℕ, ◌+◌, ◌*◌, ◌%◌, ◌≤◌, ◌<◌, ◌≡◌, List, [], ◌∷◌, ◌++◌, false, some, ◌==◌, word_mod, if◌then◌else◌,
}
use polymarket_tickscope.Base.Text.{Text}
use polymarket_tickscope.Tickerplant.{Setup, Plant, time_slot}
use polymarket_tickscope.Tickerplant.Session.{Event, arrives, rounds}

-- The clock of the last check: the loop looks at it in every 1024th round. `n` rounds have been.
unfoldable pub checked_at : {F : Type 0} → ℕ → ℕ → List (Event F) → ℕ
checked_at n clock [] = clock
checked_at n clock (arrives _ ∷ es) = checked_at n clock es
checked_at n clock (rounds r ∷ es) =
    checked_at (n + 1) (if (n + 1) % 1024 == 0 then r.now else clock) es

-- No round is told to rotate.
abbrev pub Unforced : {F : Type 0} → List (Event F) → Type 0
Unforced [] = Unit
Unforced (arrives _ ∷ es) = Unforced es
Unforced (rounds r ∷ es) = (r.force_rotate ≡ false) × Unforced es

module _ (setup : Setup) (timed : 0 < setup.rotation_interval_minutes) where
  open setup use {journal_dir, rotation_interval_minutes, file_name}

  -- The file of a window, by the window's number.
  abbrev pub path_of : ℕ → Text
  path_of slot = journal_dir ++ file_name (slot * rotation_interval_minutes * 60)

  module _ {F : Type 0} where
    -- After `n` rounds, with the clock last looked at then.
    record Current (n clock : ℕ) (p : Plant F) : Type 0 where
      counted : p.loop_iters ≡ n % word_mod
      seen : p.last_maintenance ≡ clock
      slot : p.current_slot ≡ time_slot setup clock
      file : p.file ≡ some (path_of (time_slot setup clock))

    -- The file of the current window is open, and this time lies in the window.
    pub record InWindow (p : Plant F) (clock : ℕ) : Type 0 where
      pub file : p.file ≡ some (path_of p.current_slot)
      pub since : p.current_slot * rotation_interval_minutes * 60 ≤ clock
      pub before : clock < (p.current_slot + 1) * rotation_interval_minutes * 60
