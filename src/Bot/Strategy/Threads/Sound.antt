-- ===== src/Bot/Strategy/Threads/Sound.antt =====
-- The account under the two threads, whatever they do and in whatever order.
use polymarket_tickscope.Base.{
  ℕ, ◌≤◌, ◌≡◌, refl, [], true, false, Option-cases, Bool-cases, inl, inr,
}
use native.Mathlib.Nat.{le_trans}
use polymarket_tickscope.Base.Text.{Text, text_eq}
use polymarket_tickscope.Base.Dict.{Unique}
use polymarket_tickscope.Base.Double.{Double}
use polymarket_tickscope.Base.Double.Exact.{IsExact}
use polymarket_tickscope.Bot.Books.{
  MarketBook, MarketMeta, BookState, yes_mid, no_mid, yes_valid, no_valid, get_book, get_meta,
  add_market, empty_market_book,
}
use polymarket_tickscope.Bot.Books
use polymarket_tickscope.Bot.Books.{add_market, empty_market_book}
use polymarket_tickscope.Bot.Books.Invariant.{
  IsValid, empty_state-IsValid, on_tick-IsValid, add_market-IsValid,
}
use polymarket_tickscope.Bot.Books.Metas.{Keeps, on_tick-Keeps, add_market-Keeps}
use polymarket_tickscope.Bot.Orders.{Env, paper_gateway}
use polymarket_tickscope.Bot.Orders.Sales.{open_paper-Unique}
use polymarket_tickscope.Bot.Orders.Ledger.{Balanced, open_paper-Balanced}
use polymarket_tickscope.Bot.Strategy.{Params, min_remaining_s, expiry_grace_s, ends_within}
use polymarket_tickscope.Bot.Strategy.Entry.{ends_within_mono}
use polymarket_tickscope.Bot.Strategy.Sweep.{elem}
use polymarket_tickscope.Bot.Strategy.Threads.{
  decide, Threads, opened, Step, ticked, placed, collected, swept, quoted, listed, Reach, here,
  next,
}
use polymarket_tickscope.Bot.Strategy.Threads.Fits.{no_end, decide-Fits}
use polymarket_tickscope.Bot.Strategy.Threads.Safe.{Safe, place-Safe}
use polymarket_tickscope.Bot.Strategy.Threads.Swept.{collect-Safe, sweep-Safe}

module _ (num : Double) (params : Params num) where
  open num use {F}

  module _ (exact : IsExact num) (initial : F) where
    tick-Safe :
        (s : Threads num params) (env : Env) (cid : Text)
        → s.clock ≤ env.now_ms
        → Safe num params initial s
        → Safe num params initial (record s {
          clock = env.now_ms;
          order = decide num params (paper_gateway num) env cid s.books s.account;
        })
    tick-Safe s env cid c h = record {
      valid = h.valid;
      balanced = h.balanced;
      unique = h.unique;
      fits = decide-Fits num params env cid s.books s.account s.remaining not_due;
      within = h.within;
      due = λ x e. let (now, before, ends) = h.due x e in (now, le_trans before c, ends);
    }
      where
        not_due :
            ends_within min_remaining_s env.now_ms (get_meta cid s.books) ≡ false
            → elem cid s.remaining ≡ false
        not_due open_end = elim (Bool-cases (elem cid s.remaining)) [
          | inl l ↦
              let (now, before, ends) = h.due cid l in
              absurd (
                let soon =
                  ends_within_mono now env.now_ms (get_meta cid s.books) (le_trans before c) ends in
                cc (soon, open_end))
          | inr l ↦ l
        ]

    update-Safe :
        (s : Threads num params) (books : BookState F)
        → IsValid books
        → Keeps s.books books
        → Safe num params initial s
        → Safe num params initial (record s { books = books })
    update-Safe s books v k h = record {
      valid = v;
      balanced = h.balanced;
      unique = h.unique;
      fits = h.fits;
      within = h.within;
      due = λ c e. let (now, before, ends) = h.due c e in (now, before, same c now ends);
    }
      where
        same :
            (c : Text) (now : ℕ)
            → ends_within expiry_grace_s now (get_meta c s.books) ≡ true
            → ends_within expiry_grace_s now (get_meta c books) ≡ true
        same c now ends = elim (Option-cases (get_meta c s.books)) [
          | inl f ↦ absurd (no_end now (rw f at ends))
          | inr (m, f) ↦ rw (k c m f) (rw f at ends)
        ]

    Step-Safe :
        {s t : Threads num params}
        → Step num params s t
        → Safe num params initial s
        → Safe num params initial t
    Step-Safe (ticked s env cid idle c) h = tick-Safe s env cid c h
    Step-Safe (placed s env) h = place-Safe num params exact initial s.order s env refl h h.fits
    Step-Safe (collected s env done c) h = collect-Safe num params exact initial s env c h
    Step-Safe (swept s env cid cids e) h = sweep-Safe num params exact initial s env cid cids e h
    Step-Safe (quoted s token bid ask) h =
        update-Safe s (Books.on_tick token bid ask s.books).1
          (on_tick-IsValid token bid ask s.books h.valid) (on_tick-Keeps token bid ask s.books) h
    Step-Safe (listed s meta) h =
        let blank = empty_market_book num in
        update-Safe s (add_market blank meta s.books)
          (add_market-IsValid blank meta s.books h.valid)
          (add_market-Keeps blank meta s.books h.valid) h

    Reach-Safe :
        {s t : Threads num params}
        → Safe num params initial s
        → Reach num params s t
        → Safe num params initial t
    Reach-Safe h here = h
    Reach-Safe h (next r step) = Step-Safe step (Reach-Safe h r)

  -- In exact arithmetic, from a new paper gateway and new books, whatever ticks decide and
  -- place orders on the I/O thread while the main thread collects and sells expired
  -- positions one by one, and markets and quotes come in between, as long as the clock of
  -- one thread is not before what was read last: cash and the cost of the open positions
  -- with their fees add up to the starting capital and the realised profit, and no market
  -- has two positions.
  pub Reach-Balanced :
      (exact : IsExact num) (initial : F) (clock : ℕ) {t : Threads num params}
      → Reach num params (opened num params initial clock) t
      → Balanced num initial t.account × Unique text_eq t.account.positions
  unfolding opened elem
  Reach-Balanced exact initial clock r =
      let h =
        Reach-Safe exact initial
          record {
            valid = empty_state-IsValid;
            balanced = open_paper-Balanced num exact initial;
            unique = open_paper-Unique num initial;
            fits = tt;
            within = λ c pos e held. absurd (none_left c e);
            due = λ c e. absurd (none_left c e);
          }
          r in
      (h.balanced, h.unique)
    where
      none_left : (c : Text) → elem c [] ≡ true → ⊥
      none_left c e = cc e
