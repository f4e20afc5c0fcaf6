-- ===== src/Harvester/Files.antt =====
-- What retention leaves in the data directory.
use polymarket_tickscope.Base.{ℕ, ◌≡◌, true, false, some, ◌<◌, ◌+◌, ◌*◌}
use polymarket_tickscope.Harvester.{DataFile, hour, is_metadata}

-- What the files that retention removes have in common.
pub record MayGo (now days : ℕ) (entry : DataFile) : Type 0 where
  pub regular : entry.is_regular_file ≡ true
  pub no_metadata : is_metadata entry.name ≡ false
  pub written : ℕ
  pub has_time : entry.last_write_time ≡ some written
  pub old : written + hour * (24 * days) < now
