-- ===== src/Bot/Discovery/Scan.antt =====
-- src/bot/BotDiscovery.cpp: `scan_all`, which reads the pages in parallel batches, and `tail_poll`,
-- which reads on from the last page. The threads of a batch share nothing and are joined before
-- their results are merged, so a batch is the list of their results. `get offset` answers the
-- attempts for that page, `clock offset` is the time at its elements.
use polymarket_tickscope.Base.{
  ℕ, zero, suc, ◌+◌, ◌-◌, ◌*◌, ◌/◌, min, List, [], ◌∷◌, Bool, true, false, not, ◌&&◌, Option, none,
  some, ltb, leb, if◌then◌else◌,
}
use polymarket_tickscope.Base.Text.{Text}
use polymarket_tickscope.Base.Json.{Json}
use polymarket_tickscope.Bot.Books.{MarketBook, MarketMeta, BookState, has}
use polymarket_tickscope.Bot.Discovery.{Calendar}
use polymarket_tickscope.Bot.Discovery.Pages.{
  Get, Found, track, page_size, fetch_gamma_page, fetch_gamma_page_worker,
}

unfoldable pub max_pages : ℕ
max_pages = 25

unfoldable pub n_scan_workers : ℕ
n_scan_workers = 8

pub record WorkerResult : Type 0 where
  pub page_count : Option ℕ
  pub markets : List MarketMeta
  pub offset : ℕ

-- What the scan has found, where it ended, and whether it met the last page.
pub record Scan (F : Type 0) : Type 0 where
  pub found_so_far : Found F
  pub last_offset : ℕ
  pub done : Bool

module _ {F : Type 0} (blank : MarketBook F) where
  -- The markets of one result.
  unfoldable pub merge_markets : List MarketMeta → Found F → Found F
  merge_markets [] now = now
  merge_markets (meta ∷ metas) (books, tokens) =
      merge_markets metas
        (if has meta.condition_id books then (books, tokens) else track blank meta (books, tokens))

  unfoldable pub with_page : Option ℕ → ℕ → Scan F → Scan F
  with_page none offset s = s
  with_page (some count) offset s =
      if ltb count page_size then record s { last_offset = offset; done = true } else s

  unfoldable pub merge_result : WorkerResult → Scan F → Scan F
  merge_result r s =
      with_page r.page_count r.offset
        (record s { found_so_far = merge_markets r.markets s.found_so_far })

  -- The results of a batch, up to the last page.
  unfoldable pub merge_results : List WorkerResult → Scan F → Scan F
  merge_results [] s = s
  merge_results (r ∷ rs) s =
      let merged = merge_result r s in
      let rest = merge_results rs merged in if merged.done then merged else rest

unfoldable pub batch_size : ℕ → ℕ
batch_size next_offset = min n_scan_workers (max_pages - next_offset / page_size)

module _ {F : Type 0} (blank : MarketBook F) (json : Json F) (calendar : Calendar) (filter : Text)
    (get : ℕ → Get) (clock : ℕ → ℕ → ℕ) where
  unfoldable pub worker : ℕ → WorkerResult
  worker offset =
      let read =
        fetch_gamma_page_worker blank json calendar filter (get offset) (clock offset) offset in
      record { page_count = read.0; markets = read.1; offset = offset }

  -- The workers of a batch, from page offset `offset` on.
  unfoldable pub batch : ℕ → ℕ → List WorkerResult
  batch zero offset = []
  batch (suc n) offset = worker offset ∷ batch n (offset + page_size)

  -- The loop; `none` where the fuel ends before it does.
  unfoldable pub scan_from : ℕ → ℕ → Scan F → Option (Scan F)
  scan_from zero next_offset s = none
  scan_from (suc fuel) next_offset s =
      let n = batch_size next_offset in
      let rest =
        scan_from fuel (next_offset + n * page_size)
          (merge_results blank (batch n next_offset) s) in
      if not s.done && ltb next_offset (max_pages * page_size)
      then if leb n 0 then some s else rest
      else some s

  unfoldable pub scan_all : ℕ → BookState F → Option (Scan F)
  scan_all last_offset books =
      scan_from (max_pages + 1) 0
        (record { found_so_far = (books, []); last_offset = last_offset; done = false })

  -- The loop of `tail_poll` over at most so many pages, with the last offset.
  unfoldable pub poll_from : ℕ → ℕ → ℕ → Found F → ℕ × Found F
  poll_from zero offset last now = (last, now)
  poll_from (suc pages) offset last now =
      let read =
        fetch_gamma_page blank json calendar filter (get offset) (clock offset) offset now in
      let rest = poll_from pages (offset + page_size) last read.1 in
      if ltb read.0 page_size then (offset, read.1) else rest

  unfoldable pub tail_poll : ℕ → BookState F → ℕ × Found F
  tail_poll last_offset books = poll_from max_pages last_offset last_offset (books, [])
