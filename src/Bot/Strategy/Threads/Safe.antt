-- ===== src/Bot/Strategy/Threads/Safe.antt =====
-- The invariant of the account while the threads are at work, over sales and placed orders.
use polymarket_tickscope.Base.{
  ℕ, ◌≤◌, ◌≡◌, ◌≢◌, sym, ◌∙◌, subst, List, true, false, some, Option-cases, Bool-cases, inl, inr,
}
use polymarket_tickscope.Base.Text.{Text, text_eq}
use polymarket_tickscope.Base.Dict.{find, Unique}
use polymarket_tickscope.Base.Double.{Double}
use polymarket_tickscope.Base.Double.Exact.{IsExact}
use polymarket_tickscope.Bot.Books.{BookState, yes_mid, get_meta}
use polymarket_tickscope.Bot.Books.Invariant.{IsValid}
use polymarket_tickscope.Bot.Orders.{Position, Env, paper_gateway, sell}
use polymarket_tickscope.Bot.Orders.Sales.{sell-Unique, sell_absent, buy-Unique, buy-find_ne}
use polymarket_tickscope.Bot.Orders.Ledger.{Balanced, buy-Balanced, sell-Balanced}
use polymarket_tickscope.Bot.Strategy.{Params, expiry_grace_s, ends_within}
use polymarket_tickscope.Bot.Strategy.Sweep.{elem}
use polymarket_tickscope.Bot.Strategy.Threads.{Order, nothing, buys, sells, place, Threads}
use polymarket_tickscope.Bot.Strategy.Threads.Fits.{sold_back, Fits, Fits-sold}

module _ (num : Double) (params : Params num) where
  open num use {F}

  -- A market that the sweep has still to sell was about to end when it was collected.
  abbrev pub Due : ℕ → BookState F → Text → Type 0
  Due clock books c =
      (now : ℕ) × (now ≤ clock) × (ends_within expiry_grace_s now (get_meta c books) ≡ true)

  pub record Safe (initial : F) (s : Threads num params) : Type 0 where
    pub valid : IsValid s.books
    pub balanced : Balanced num initial s.account
    pub unique : Unique text_eq s.account.positions
    pub fits : Fits num s.order s.account.positions s.remaining
    pub within :
        (c : Text) (pos : Position F)
        → elem c s.remaining ≡ true
        → find text_eq c s.account.positions ≡ some pos
        → find text_eq c s.snapshot ≡ some pos
    pub due : (c : Text) → elem c s.remaining ≡ true → Due s.clock s.books c

  module _ (exact : IsExact num) (initial : F) where
    -- A sale of all shares of a market, with what was held before it.
    pub sold-Safe :
        (s : Threads num params) (env : Env) (cid : Text) (shares px bid : F) (later : List Text)
        → Safe initial s
        → ((pos : Position F)
            → find text_eq cid s.account.positions ≡ some pos
            → pos.shares ≡ shares)
        → ((c : Text) → elem c later ≡ true → elem c s.remaining ≡ true)
        → Safe initial
            (record s { account = sell num env cid shares px bid s.account; remaining = later })
    sold-Safe s env cid shares px bid later h whole fewer = record {
      valid = h.valid;
      balanced = elim (Option-cases (find text_eq cid s.account.positions)) [
        | inl e ↦ rw (sell_absent num env cid shares px bid s.account e) h.balanced
        | inr (pos, e) ↦
            subst (λ n. Balanced num initial (sell num env cid n px bid s.account)) (whole pos e)
              (sell-Balanced num exact env cid px bid initial pos s.account e h.balanced)
      ];
      unique = sell-Unique num env cid shares px bid s.account h.unique;
      fits =
          Fits-sold num s.order env cid shares px bid s.account s.remaining later h.unique
            (λ c e. not_later c e) h.fits;
      within = λ c pos e held.
          h.within c pos (fewer c e)
            (sold_back num env cid c shares px bid s.account pos h.unique held).1;
      due = λ c e. h.due c (fewer c e);
    }
      where
        not_later : (c : Text) → elem c s.remaining ≡ false → elem c later ≡ false
        not_later c e = elim (Bool-cases (elem c later)) [
          | inl l ↦ absurd (cc (fewer c l, e))
          | inr l ↦ l
        ]

    pub place-Safe :
        (order : Order F) (s : Threads num params) (env : Env)
        → s.order ≡ order
        → Safe initial s
        → Fits num order s.account.positions s.remaining
        → Safe initial (record s {
          account = place num params (paper_gateway num) env order s.account;
          order = nothing;
        })
    unfolding place
    place-Safe nothing s env o h fits = record {
      valid = h.valid;
      balanced = h.balanced;
      unique = h.unique;
      fits = tt;
      within = h.within;
      due = h.due;
    }
    place-Safe (buys cid question shares px yes_mid no_ask) s env o h fits = record {
      valid = h.valid;
      balanced =
          buy-Balanced num exact env cid question shares px yes_mid no_ask initial s.account fits.0
            h.balanced;
      unique = buy-Unique num env cid question shares px yes_mid no_ask s.account h.unique;
      fits = tt;
      within = λ c pos e held. h.within c pos e (
          sym (buy-find_ne num env cid question shares px yes_mid no_ask s.account c (other c e))
          ∙ held);
      due = h.due;
    }
      where
        other : (c : Text) → elem c s.remaining ≡ true → cid ≢ c
        other c e same = let f = subst (λ x. elem x s.remaining ≡ false) same fits.1 in cc (e, f)
    place-Safe (sells cid shares px bid) s env o h fits =
        let k = sold-Safe s env cid shares px bid s.remaining h fits (λ c e. e) in
        record {
          valid = h.valid;
          balanced = k.balanced;
          unique = k.unique;
          fits = tt;
          within = k.within;
          due = k.due;
        }
