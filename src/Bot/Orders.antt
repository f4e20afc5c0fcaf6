-- ===== src/Bot/Orders.antt =====
-- src/bot/OrderGateway.hpp and OrderGateway.cpp: the gateway that the strategy trades through, with
-- its two implementations. Each method is one step on the state, as it holds the mutex for all
-- that it changes. The text of the log lines is not modelled, only the values in them.
pub mod Sales
pub mod Ledger
pub mod Solvent
use polymarket_tickscope.Base.{
  ℕ, zero, suc, List, [], ◌∷◌, ◌++◌, Bool, Option, none, some, ◌≡◌, refl, ite, if◌then◌else◌,
  length,
}
use polymarket_tickscope.Base.Text.{Text, text_eq}
use polymarket_tickscope.Base.Dict.{find, assign, erase, contains}
use polymarket_tickscope.Base.Double.{Double}

pub record Position (F : Type 0) : Type 0 where
  pub condition_id : Text
  pub question : Text
  pub shares : F
  pub entry_price : F
  pub buy_fee : F
  pub entry_time_ms : ℕ

-- The clock of a call, and whether the log file opens.
pub record Env : Type 0 where
  pub now_ms : ℕ
  pub log_opens : Bool

-- What the strategy knows of a gateway: the abstract class, with the law on which it relies that
-- `has_position` looks into the very map that `positions` copies.
pub record OrderGateway (num : Double) : Type 1 where
  pub State : Type 0
  pub buy : Env → Text → Text → num.F → num.F → num.F → num.F → State → State
  pub sell : Env → Text → num.F → num.F → num.F → State → State
  pub has_position : Text → State → Bool
  pub available_capital : State → num.F
  pub realised_pnl : State → num.F
  pub total_fees : State → num.F
  pub positions : State → List (Text × Position num.F)
  pub has_position_lem :
      (cid : Text) (s : State) → has_position cid s ≡ contains text_eq cid (positions s)

-- A line of the trade log.
pub data Line (F : Type 0) : Type 0 where
  bought : (shares fill fee yes_mid no_ask : F) (question : Text) → Line F
  sold : (shares fill no_mid fee pnl : F) (question : Text) → Line F

pub record PaperGateway (F : Type 0) : Type 0 where
  pub capital : F
  pub realised_pnl : F
  pub total_fees : F
  pub positions : List (Text × Position F)
  pub lines : List (Line F)

module _ (num : Double) where
  open num use {F, decimal, add, sub, mul}

  -- The loop `base *= p1p`, run FEE_EXPONENT times.
  power : F → ℕ → F → F
  power p1p zero base = base
  power p1p (suc n) base = power p1p n (mul base p1p)

  unfoldable pub dynamic_fee_rate : F → F
  unfolding power
  dynamic_fee_rate price =
      let p1p = mul price (sub (decimal 1 0) price) in
      mul (decimal 25 2) (power p1p 2 (decimal 1 0))

  -- The constructor.
  pub open_paper : F → PaperGateway F
  open_paper initial = record {
    capital = initial;
    realised_pnl = decimal 0 0;
    total_fees = decimal 0 0;
    positions = [];
    lines = [];
  }

  -- A file that does not open loses the line.
  unfoldable pub log : Env → Line F → PaperGateway F → PaperGateway F
  log env line g = if env.log_opens then record g { lines = g.lines ++ line ∷ [] } else g

  unfoldable pub buy : Env → Text → Text → F → F → F → F → PaperGateway F → PaperGateway F
  unfolding log
  buy env cid question shares fill_price yes_mid no_ask g =
      let cost = mul shares fill_price in
      let fee_base = dynamic_fee_rate fill_price in
      let buy_fee = mul (mul shares fee_base) fill_price in
      log env (bought shares fill_price buy_fee yes_mid no_ask question) (record g {
        capital = sub g.capital (add cost buy_fee);
        total_fees = add g.total_fees buy_fee;
        positions =
            assign text_eq cid
              (record {
                condition_id = cid;
                question = question;
                shares = shares;
                entry_price = fill_price;
                buy_fee = buy_fee;
                entry_time_ms = env.now_ms;
              })
              g.positions;
      })

  -- The body under the lock, for the position found, and the line that follows it.
  unfoldable pub close : Env → Text → Position F → F → F → F → PaperGateway F → PaperGateway F
  unfolding log
  close env cid pos shares fill_price no_bid g =
      let proceeds = mul shares fill_price in
      let cost = mul shares pos.entry_price in
      let fee_base = dynamic_fee_rate fill_price in
      let sell_fee = mul shares fee_base in
      let pnl = sub (sub (sub proceeds cost) sell_fee) pos.buy_fee in
      log env (sold shares fill_price no_bid sell_fee pnl pos.question) (record g {
        capital = add g.capital (sub proceeds sell_fee);
        realised_pnl = add g.realised_pnl pnl;
        total_fees = add g.total_fees sell_fee;
        positions = erase text_eq cid g.positions;
      })

  -- Without a position, as when another thread closed it first, nothing happens.
  pub sell : Env → Text → F → F → F → PaperGateway F → PaperGateway F
  unfolding close
  sell env cid shares fill_price no_bid g = elim (find text_eq cid g.positions) [
    | none ↦ g
    | some pos ↦ close env cid pos shares fill_price no_bid g
  ]

  abbrev pub paper_gateway : OrderGateway num
  paper_gateway = record {
    State = PaperGateway F;
    buy = buy;
    sell = sell;
    has_position = λ cid g. contains text_eq cid g.positions;
    available_capital = λ g. g.capital;
    realised_pnl = λ g. g.realised_pnl;
    total_fees = λ g. g.total_fees;
    positions = λ g. g.positions;
    has_position_lem = λ cid g. refl;
  }

-- The live gateway is a stub: its orders are not sent, and its state never changes. The
-- credentials are kept and not used.
pub record LiveGateway (F : Type 0) : Type 0 where
  pub capital : F
  pub realised_pnl : F
  pub total_fees : F
  pub positions : List (Text × Position F)

module _ (num : Double) where
  open num use {F, decimal}

  pub open_live : F → LiveGateway F
  open_live initial = record {
    capital = initial;
    realised_pnl = decimal 0 0;
    total_fees = decimal 0 0;
    positions = [];
  }

  abbrev pub live_gateway : OrderGateway num
  live_gateway = record {
    State = LiveGateway F;
    buy = λ env cid question shares fill_price yes_mid no_ask g. g;
    sell = λ env cid shares fill_price no_bid g. g;
    has_position = λ cid g. contains text_eq cid g.positions;
    available_capital = λ g. g.capital;
    realised_pnl = λ g. g.realised_pnl;
    total_fees = λ g. g.total_fees;
    positions = λ g. g.positions;
    has_position_lem = λ cid g. refl;
  }
