-- ===== src/Core.antt =====
-- include/polymarket/core/Tick.hpp and BtcTick.hpp: the two records that the pipelines carry.
-- `F` stands for `double`. `asset_id` is the 80-byte array up to its last written byte; the
-- alignment and the padding bytes have no counterpart.
use polymarket_tickscope.Base.{ℕ}
use polymarket_tickscope.Base.Text.{Text}

pub record Tick (F : Type 0) : Type 0 where
  pub timestamp : ℕ
  pub price : F
  pub size : F
  pub best_bid : F
  pub best_ask : F
  pub side : ℕ
  pub event_type : ℕ
  pub asset_id : Text

pub record BtcTick (F : Type 0) : Type 0 where
  pub timestamp : ℕ
  pub bid : F
  pub ask : F
  pub mid : F
