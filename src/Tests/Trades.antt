-- ===== src/Tests/Trades.antt =====
-- The bot's two threads at concrete steps: an order waits while the sweep collects.
use polymarket_tickscope.Base.{ℕ, ◌≡◌, [], refl, true, arith}
use polymarket_tickscope.Base.Text.{codes, text_eq}
use polymarket_tickscope.Base.Dict.{Unique}
use polymarket_tickscope.Bot.Orders
use polymarket_tickscope.Bot.Orders.{Env, paper_gateway, open_paper}
use polymarket_tickscope.Bot.Orders.Ledger.{Balanced}
use polymarket_tickscope.Bot.Strategy.Threads.{
  Threads, opened, Reach, here, next, listed, quoted, ticked, collected, placed,
}
use polymarket_tickscope.Bot.Strategy.Threads.Sound.{Reach-Balanced}
use polymarket_tickscope.Bot.Strategy.{kelly_size}
use polymarket_tickscope.Base.Double.{max, clamp}
use polymarket_tickscope.Tests.Fixed.{plus, minus, negsuc, pos, fixed, fixed-IsExact}
use polymarket_tickscope.Tests.Market.{params, rain, market}

abbrev start : Threads fixed params
start = opened fixed params (pos 1000000000) 0

abbrev at : ℕ → Env
at now = record { now_ms = now; log_opens = true }

abbrev reached : (t : Threads fixed params) × Reach fixed params start t
unfolding opened
reached = (
  _,
  next
      (next
        (next
          (next
            (next (next here (listed start rain)) (quoted _ (codes "y") (pos 380000) (pos 390000)))
            (quoted _ (codes "n") (pos 600000) (pos 610000)))
          (ticked _ (at 5000) market refl (omega arith)))
        (collected _ (at 6000) refl (omega arith)))
      (placed _ (at 6500)),
)

Reach-Balanced_example :
    Balanced fixed (pos 1000000000) reached.0.account × Unique text_eq reached.0.account.positions
Reach-Balanced_example = Reach-Balanced fixed params fixed-IsExact (pos 1000000000) 0 reached.1

-- The least order, with cash for its price alone: one share is bought, and the fee is owed.
least_size : kelly_size fixed (pos 610305) (pos 610305) ≡ pos 1000000
unfolding kelly_size max clamp minus
least_size = refl

overdrawn :
    (Orders.buy fixed
      (at 0)
      market
      []
      (pos 1000000)
      (pos 610305)
      (pos 390000)
      (pos 610000)
      (record {
        capital = pos 610305;
        realised_pnl = pos 0;
        total_fees = pos 0;
        positions = [];
        lines = [];
      })).capital
    ≡ negsuc 8629
unfolding Orders.buy minus plus Orders.dynamic_fee_rate
overdrawn = refl
