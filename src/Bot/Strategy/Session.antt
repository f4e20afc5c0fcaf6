-- ===== src/Bot/Strategy/Session.antt =====
-- A whole session of the bot on the paper gateway: ticks and sweeps in any order, at any prices.
use polymarket_tickscope.Base.{
  ◌≡◌, List, [], ◌∷◌, none, some, arith, Option-cases, Bool-cases, inl, inr, sym, ◌∙◌,
}
use polymarket_tickscope.Base.Text.{Text, text_eq}
use polymarket_tickscope.Base.Dict.{find, contains, Unique, contains-find}
use polymarket_tickscope.Base.Double.{Double}
use polymarket_tickscope.Base.Double.Exact.{IsExact}
use polymarket_tickscope.Bot.Books.{MarketBook, BookState, get_book}
use polymarket_tickscope.Bot.Orders.{Position, Env, PaperGateway, paper_gateway, open_paper, sell}
use polymarket_tickscope.Bot.Orders.Sales.{
  sell-find_self, sell-find_ne, sell-Unique, sell_absent, buy-Unique, open_paper-Unique,
}
use polymarket_tickscope.Bot.Orders.Ledger.{
  Balanced, open_paper-Balanced, buy-Balanced, sell-Balanced,
}
use polymarket_tickscope.Bot.Strategy.{
  Params, sweep_px, expired_cids, close_all, sweep_expired, enter, leave, on_tick,
}
use polymarket_tickscope.Bot.Strategy.Entry.{enter_cases}
use polymarket_tickscope.Bot.Strategy.Exits.{leave_cases}

-- What the two threads do: the I/O thread after a tick of market `cid`, the main thread's sweep.
pub data Event (F : Type 0) : Type 0 where
  ticked : Env → Text → BookState F → Event F
  swept : Env → BookState F → Event F

module _ (num : Double) (params : Params num) where
  open num use {F}

  pub step : Event F → PaperGateway F → PaperGateway F
  step (ticked env cid books) g = on_tick num (paper_gateway num) params env cid books g
  step (swept env books) g = (sweep_expired num (paper_gateway num) params env books g).1

  pub run : List (Event F) → PaperGateway F → PaperGateway F
  run [] g = g
  run (e ∷ es) g = run es (step e g)

  -- The books balance, and no market has two positions.
  pub record Sound (initial : F) (g : PaperGateway F) : Type 0 where
    pub balanced : Balanced num initial g
    pub unique : Unique text_eq g.positions

  module _ (exact : IsExact num) (initial : F) where
    sell-Sound :
        (env : Env) (cid : Text) (pos : Position F) (px bid : F) (g : PaperGateway F)
        → find text_eq cid g.positions ≡ some pos
        → Sound initial g
        → Sound initial (sell num env cid pos.shares px bid g)
    sell-Sound env cid pos px bid g e s = record {
      balanced = sell-Balanced num exact env cid px bid initial pos g e s.balanced;
      unique = sell-Unique num env cid pos.shares px bid g s.unique;
    }

    leave-Sound :
        (env : Env) (cid : Text) (bk : MarketBook F) (books : BookState F) (g : PaperGateway F)
        → Sound initial g
        → Sound initial (leave num (paper_gateway num) params env cid bk books g)
    leave-Sound env cid bk books g s =
        elim (leave_cases num (paper_gateway num) params env cid bk books g) [
          | inl same ↦ rw same s
          | inr (pos, e, _, sold) ↦ rw sold (sell-Sound env cid pos _ _ g e s)
        ]

    enter-Sound :
        (env : Env) (cid : Text) (bk : MarketBook F) (books : BookState F) (g : PaperGateway F)
        → find text_eq cid g.positions ≡ none
        → Sound initial g
        → Sound initial (enter num (paper_gateway num) params env cid bk books g)
    enter-Sound env cid bk books g new s =
        elim (enter_cases num (paper_gateway num) params env cid bk books g) [
          | inl same ↦ rw same s
          | inr (_, bought) ↦ rw bought (record {
            balanced = buy-Balanced num exact env cid _ _ _ _ _ initial g new s.balanced;
            unique = buy-Unique num env cid _ _ _ _ _ g s.unique;
          })
        ]

    pub tick-Sound :
        (env : Env) (cid : Text) (books : BookState F) (g : PaperGateway F)
        → Sound initial g
        → Sound initial (on_tick num (paper_gateway num) params env cid books g)
    unfolding on_tick
    tick-Sound env cid books g s = elim (Option-cases (get_book cid books)) [
      | inl e ↦ rw (e, on_tick) s
      | inr (bk, e) ↦ elim (Bool-cases (contains text_eq cid g.positions)) [
        | inl held ↦ rw (e, on_tick) (rw held (leave-Sound env cid bk books g s))
        | inr new ↦
            rw (e, on_tick)
              (rw new
                (enter-Sound env cid bk books g (contains-find text_eq cid g.positions new) s))
      ]
    ]

    -- The positions in the gateway are among those of the snapshot.
    Within : List (Text × Position F) → PaperGateway F → Type 0
    Within snapshot g =
        (c : Text) (pos : Position F)
        → find text_eq c g.positions ≡ some pos
        → find text_eq c snapshot ≡ some pos

    sell-Within :
        (env : Env) (cid : Text) (pos : Position F) (px bid : F)
        (snapshot : List (Text × Position F)) (g : PaperGateway F)
        → Sound initial g
        → Within snapshot g
        → Within snapshot (sell num env cid pos.shares px bid g)
    unfolding Within
    sell-Within env cid pos px bid snapshot g s w c held e = w c held (
        ground (
          arith,
          sell-find_self num env cid pos.shares px bid g s.unique,
          sell-find_ne num env cid c pos.shares px bid g,
        ))

    -- The sweep sells by its snapshot: the position is still that one, or gone.
    snapshot_sell-Sound :
        (env : Env) (cid : Text) (pos : Position F) (px : F) (snapshot : List (Text × Position F))
        (g : PaperGateway F)
        → Sound initial g
        → Within snapshot g
        → find text_eq cid snapshot ≡ some pos
        → Sound initial (sell num env cid pos.shares px px g)
    unfolding Within
    snapshot_sell-Sound env cid pos px snapshot g s w e =
        elim (Option-cases (find text_eq cid g.positions)) [
          | inl gone ↦ rw (sell_absent num env cid pos.shares px px g gone) s
          | inr (pos', held) ↦ sell-Sound env cid pos px px g (held ∙ sym (w cid pos' held) ∙ e) s
        ]

    close_all-Sound :
        (env : Env) (books : BookState F) (snapshot : List (Text × Position F)) (cids : List Text)
        (g : PaperGateway F)
        → Sound initial g
        → Within snapshot g
        → Sound initial (close_all num (paper_gateway num) params env books snapshot cids g)
    unfolding close_all
    close_all-Sound env books snapshot [] g s w = s
    close_all-Sound env books snapshot (cid ∷ cids) g s w =
        elim (Option-cases (find text_eq cid snapshot)) [
          | inl e ↦ rw (e, close_all) (close_all-Sound env books snapshot cids g s w)
          | inr (pos, e) ↦
              let px = sweep_px num (paper_gateway num) params (get_book cid books) pos in
              rw (e, close_all)
                (close_all-Sound env books snapshot cids (sell num env cid pos.shares px px g)
                  (snapshot_sell-Sound env cid pos px snapshot g s w e)
                  (sell-Within env cid pos px px snapshot g s w))
        ]

    pub sweep_expired-Sound :
        (env : Env) (books : BookState F) (g : PaperGateway F)
        → Sound initial g
        → Sound initial (sweep_expired num (paper_gateway num) params env books g).1
    unfolding sweep_expired Within
    sweep_expired-Sound env books g s =
        close_all-Sound env books g.positions
          (expired_cids num (paper_gateway num) params env.now_ms books g.positions) g s
          (λ c pos held. held)

    step-Sound : (e : Event F) (g : PaperGateway F) → Sound initial g → Sound initial (step e g)
    unfolding step
    step-Sound (ticked env cid books) g s = tick-Sound env cid books g s
    step-Sound (swept env books) g s = sweep_expired-Sound env books g s

    pub open_paper-Sound : Sound initial (open_paper num initial)
    open_paper-Sound = record {
      balanced = open_paper-Balanced num exact initial;
      unique = open_paper-Unique num initial;
    }

    run-Sound :
        (es : List (Event F)) (g : PaperGateway F) → Sound initial g → Sound initial (run es g)
    unfolding run
    run-Sound [] g s = s
    run-Sound (e ∷ es) g s = run-Sound es (step e g) (step-Sound e g s)

  -- In exact arithmetic, after any ticks and sweeps from a new paper gateway, cash and the
  -- cost of the open positions with their fees add up to the starting capital and the
  -- realised profit, and no market has two positions.
  pub session-Balanced :
      (exact : IsExact num) (initial : F) (es : List (Event F))
      → Balanced num initial (run es (open_paper num initial))
        × Unique text_eq (run es (open_paper num initial)).positions
  session-Balanced exact initial es =
      let sound =
        run-Sound exact initial es (open_paper num initial) (open_paper-Sound exact initial) in
      (sound.balanced, sound.unique)
