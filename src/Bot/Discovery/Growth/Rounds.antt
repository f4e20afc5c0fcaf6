-- ===== src/Bot/Discovery/Growth/Rounds.antt =====
-- What one market comes to in a discovery, and how far a round of the scan goes on.
use polymarket_tickscope.Base.{
  ℕ, suc, ◌+◌, ◌*◌, ◌≤◌, ◌<◌, ◌≡◌, refl, ◌⊎◌, inl, inr, false, Option, none, some, Option-cases,
  arith,
}
use polymarket_tickscope.Base.Text.{Text, codes}
use polymarket_tickscope.Base.Json.{Json}
use polymarket_tickscope.Bot.Books.{MarketMeta, BookState, has}
use polymarket_tickscope.Bot.Discovery.{
  Calendar, Verdict, skipped, counted, found, examine, take_market,
}
use polymarket_tickscope.Bot.Discovery.Pages.{page_size}
use polymarket_tickscope.Bot.Discovery.Scan.{max_pages, n_scan_workers, batch_size}

pub Verdict-cases :
    (v : Verdict) → (v ≡ skipped) ⊎ ((v ≡ counted) ⊎ ((m : MarketMeta) × (v ≡ found m)))
Verdict-cases skipped = inl refl
Verdict-cases counted = inr (inl refl)
Verdict-cases (found m) = inr (inr (m, refl))

module _ {F : Type 0} (json : Json F) (calendar : Calendar) (now : ℕ) where
  open json use {Object, get_string}

  take_market-id :
      (question cid : Text) (market : Object) (m : MarketMeta)
      → take_market json calendar now question cid market ≡ found m
      → m.condition_id ≡ cid
  unfolding take_market
  take_market-id question cid market m e = ground arith

  -- A market that is found is not tracked yet.
  pub examine-new :
      (filter : Text) (books : BookState F) (market : Option Object) (m : MarketMeta)
      → examine json calendar now filter books market ≡ found m
      → has m.condition_id books ≡ false
  unfolding examine
  examine-new filter books none m e = ground arith
  examine-new filter books (some market) m e =
      elim (Option-cases (get_string (codes "question") market)) [
        | inl q ↦ ground (arith, q)
        | inr (question, q) ↦ elim (Option-cases (get_string (codes "conditionId") market)) [
          | inl c ↦ ground (arith, q, c)
          | inr (cid, c) ↦ ground (arith, q, c, take_market-id question cid market m)
        ]
      ]

-- Each round of the scan but the last goes on by at least one page.
batch_size_pos : (offset : ℕ) → offset < max_pages * page_size → 0 < batch_size offset
unfolding batch_size max_pages page_size n_scan_workers
batch_size_pos offset h = omega arith

pub next_enough :
    (fuel offset : ℕ)
    → offset < max_pages * page_size
    → max_pages * page_size ≤ offset + suc fuel * page_size
    → max_pages * page_size ≤ offset + batch_size offset * page_size + fuel * page_size
unfolding max_pages page_size
next_enough fuel offset h enough = omega (arith, batch_size_pos offset h)
