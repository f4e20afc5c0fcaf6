-- ===== src/Bot/Discovery/Eligible.antt =====
-- src/bot/BotDiscovery.cpp: what the markets that a discovery takes have in common.
use polymarket_tickscope.Base.{
  ℕ, ◌+◌, ◌<◌, ◌≡◌, List, [], ◌∷◌, All, All-append, true, Option, none, some, Option-cases, inl,
  inr, arith, zero, suc,
}
use polymarket_tickscope.Base.Text.{Text, codes}
use polymarket_tickscope.Base.Json.{Json}
use polymarket_tickscope.Base.Http.{markets_of}
use polymarket_tickscope.Bot.Books.{MarketBook, MarketMeta, BookState}
use polymarket_tickscope.Bot.Discovery.{
  Calendar, found, matches_filter, is_expired_or_too_soon, take_market, examine, examine_alone,
}
use polymarket_tickscope.Bot.Discovery.Pages.{
  Get, page_size, path_of, max_attempts, attempt_from, collect, fetch_gamma_page_worker,
}
use polymarket_tickscope.Bot.Discovery.Scan.{WorkerResult, worker, batch}
use polymarket_tickscope.Bot.Discovery.Growth.Rounds.{Verdict-cases}

-- The question contains the filter, and the end of the market is known.
pub record IsEligible (filter : Text) (m : MarketMeta) : Type 0 where
  pub matches : matches_filter m.question filter ≡ true
  pub ends : 0 < m.end_time_ms

module _ {F : Type 0} (json : Json F) (calendar : Calendar) (now : ℕ) (filter : Text) where
  open json use {Object, get_string}

  take_market-IsEligible :
      (question cid : Text) (market : Object) (m : MarketMeta)
      → matches_filter question filter ≡ true
      → take_market json calendar now question cid market ≡ found m
      → IsEligible filter m
  unfolding take_market is_expired_or_too_soon
  take_market-IsEligible question cid market m h e = ground arith

  pub examine-IsEligible :
      (books : BookState F) (market : Option Object) (m : MarketMeta)
      → examine json calendar now filter books market ≡ found m
      → IsEligible filter m
  unfolding examine
  examine-IsEligible books none m e = ground arith
  examine-IsEligible books (some market) m e =
      elim (Option-cases (get_string (codes "question") market)) [
        | inl q ↦ ground (arith, q)
        | inr (question, q) ↦ elim (Option-cases (get_string (codes "conditionId") market)) [
          | inl c ↦ ground (arith, q, c)
          | inr (cid, c) ↦ ground (arith, q, c, take_market-IsEligible question cid market m)
        ]
      ]

  examine_alone-IsEligible :
      (market : Option Object) (m : MarketMeta)
      → examine_alone json calendar now filter market ≡ found m
      → IsEligible filter m
  unfolding examine_alone
  examine_alone-IsEligible none m e = ground arith
  examine_alone-IsEligible (some market) m e =
      elim (Option-cases (get_string (codes "question") market)) [
        | inl q ↦ ground (arith, q)
        | inr (question, q) ↦ elim (Option-cases (get_string (codes "conditionId") market)) [
          | inl c ↦ ground (arith, q, c)
          | inr (cid, c) ↦ ground (arith, q, c, take_market-IsEligible question cid market m)
        ]
      ]

module _ {F : Type 0} (blank : MarketBook F) (json : Json F) (calendar : Calendar)
    (filter : Text) where
  open json use {Object}

  abbrev pub AllEligible : List MarketMeta → Type 0
  AllEligible ms = All (IsEligible filter) ms

  collect-AllEligible :
      (clock : ℕ → ℕ) (i : ℕ) (markets : List (Option Object)) (count : ℕ) (metas : List MarketMeta)
      → AllEligible metas
      → AllEligible (collect blank json calendar filter clock i markets (count, metas)).1
  unfolding collect
  collect-AllEligible clock i [] count metas h = h
  collect-AllEligible clock i (m ∷ ms) count metas h =
      elim (Verdict-cases (examine_alone json calendar (clock i) filter m)) [
        | inl e ↦ rw (collect, e) (collect-AllEligible clock (i + 1) ms count metas h)
        | inr (inl e) ↦ rw (collect, e) (collect-AllEligible clock (i + 1) ms (count + 1) metas h)
        | inr (inr (new, e)) ↦
            rw (collect, e)
              (collect-AllEligible clock (i + 1) ms (count + 1) _ (
                All-append (IsEligible filter) metas (new ∷ []) h
                  (examine_alone-IsEligible json calendar (clock i) filter m new e, tt)))
      ]

  worker_page-AllEligible :
      (get : Get) (clock : ℕ → ℕ) (offset : ℕ)
      → AllEligible (fetch_gamma_page_worker blank json calendar filter get clock offset).1
  unfolding fetch_gamma_page_worker
  worker_page-AllEligible get clock offset =
      elim (Option-cases (attempt_from get (path_of offset) 0 max_attempts)) [
        | inl e ↦ rw (fetch_gamma_page_worker, e) tt
        | inr (body, e) ↦ elim (Option-cases (markets_of json body)) [
          | inl f ↦ rw (fetch_gamma_page_worker, e, f) tt
          | inr (markets, f) ↦
              rw (fetch_gamma_page_worker, e, f) (collect-AllEligible clock 0 markets 0 [] tt)
        ]
      ]

  pub batch-AllEligible :
      (get : ℕ → Get) (clock : ℕ → ℕ → ℕ) (n offset : ℕ)
      → All
          (λ (r : WorkerResult). AllEligible r.markets)
          (batch blank json calendar filter get clock n offset)
  unfolding batch worker
  batch-AllEligible get clock zero offset = tt
  batch-AllEligible get clock (suc n) offset = (
    worker_page-AllEligible (get offset) (clock offset) offset,
    batch-AllEligible get clock n (offset + page_size),
  )
