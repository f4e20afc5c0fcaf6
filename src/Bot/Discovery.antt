-- ===== src/Bot/Discovery.antt =====
-- src/bot/BotDiscovery.cpp: what one market of a page of the Gamma API comes to. The standard
-- library's calendar is a parameter, and so is the clock, which the code reads once for each market.
pub mod Pages
pub mod Scan
pub mod Eligible
pub mod Growth
pub mod Sequential
pub mod Offline
use polymarket_tickscope.Base.{
  ℕ, ◌+◌, ◌*◌, List, [], ◌∷◌, ◌++◌, Bool, true, false, not, ◌&&◌, Option, none, some, leb,
  if◌then◌else◌,
}
use polymarket_tickscope.Base.Text.{Text, codes, c_str}
use polymarket_tickscope.Base.Json.{Json}
use polymarket_tickscope.Gateway.Metadata.{is_empty}
use polymarket_tickscope.Gateway.Filter.{to_lower, contains_text}
use polymarket_tickscope.Bot.Strategy.{min_remaining_s}
use polymarket_tickscope.Bot.Books.{MarketMeta, BookState, has}

-- `std::tm`, as far as the code reads or writes it.
pub record Tm : Type 0 where
  pub tm_year : ℕ
  pub tm_mon : ℕ
  pub tm_mday : ℕ
  pub tm_hour : ℕ
  pub tm_min : ℕ
  pub tm_sec : ℕ

-- `strptime` on a zeroed `tm`; `timegm` is `none` before 1970.
pub record Calendar : Type 0 where
  pub strptime : Text → Text → Option Tm
  pub timegm : Tm → Option ℕ

module _ (calendar : Calendar) where
  open calendar use {strptime, timegm}

  unfoldable pub epoch_ms : Tm → ℕ
  epoch_ms tm = elim (timegm tm) [ none ↦ 0 | some epoch ↦ epoch * 1000 ]

  -- A date without a time is the end of its day; 0 where neither form is read.
  unfoldable pub parse_iso8601_ms : Text → ℕ
  parse_iso8601_ms iso_str =
      if is_empty iso_str then 0 else elim (strptime (c_str iso_str) (codes "%Y-%m-%dT%H:%M:%S")) [
        | some tm ↦ epoch_ms tm
        | none ↦ elim (strptime (c_str iso_str) (codes "%Y-%m-%d")) [
          | none ↦ 0
          | some tm ↦ epoch_ms (record tm { tm_hour = 23; tm_min = 59; tm_sec = 59 })
        ]
      ]

unfoldable pub is_expired_or_too_soon : ℕ → ℕ → Bool
is_expired_or_too_soon now end_time_ms =
    if leb end_time_ms 0 then true else leb end_time_ms (now + min_remaining_s * 1000)

-- What the constructor makes of the filter.
unfoldable pub lower_filter : Text → Text
lower_filter filter = to_lower filter

unfoldable pub matches_filter : Text → Text → Bool
matches_filter question filter =
    if is_empty filter then true else contains_text filter (to_lower question)

-- The loop over the elements, from index `idx` = 0 if `first`.
unfoldable pub token_ids : Bool → List (Option Text) → Text × Text → Text × Text
token_ids first [] ids = ids
token_ids first (none ∷ es) ids = token_ids false es ids
token_ids first (some sv ∷ es) (yes_id, no_id) =
    token_ids false es
      (if is_empty sv then (yes_id, no_id) else if first then (sv, no_id) else (yes_id, sv))

both_ids : Text × Text → Option (Text × Text)
both_ids (yes_id, no_id) =
    if not (is_empty yes_id) && not (is_empty no_id) then some (yes_id, no_id) else none

-- What a market on a page comes to: the `continue` before the count, the one after it, or a new
-- market.
pub data Verdict : Type 0 where
  skipped : Verdict
  counted : Verdict
  found : (meta : MarketMeta) → Verdict

module _ {F : Type 0} (json : Json F) where
  open json use {Object, iterate, doc_strings, get_string}

  unfoldable pub parse_clob_token_ids : Text → Option (Text × Text)
  unfolding both_ids
  parse_clob_token_ids raw_str = elim (iterate raw_str) [
    | none ↦ none
    | some inner_doc ↦ elim (doc_strings inner_doc) [
      | none ↦ none
      | some arr ↦ both_ids (token_ids true arr ([], []))
    ]
  ]

  module _ (calendar : Calendar) (now : ℕ) where
    unfoldable pub end_ms : Object → ℕ
    end_ms market = elim (get_string (codes "endDateIso") market) [
      | none ↦ 0
      | some end_sv ↦ parse_iso8601_ms calendar end_sv
    ]

    -- From the end date on, the same in both readers of a page.
    unfoldable pub take_market : Text → Text → Object → Verdict
    take_market question cid market =
        if is_expired_or_too_soon now (end_ms market)
        then counted
        else elim (get_string (codes "clobTokenIds") market) [
          | none ↦ counted
          | some clob_str ↦ elim (parse_clob_token_ids clob_str) [
            | none ↦ counted
            | some ids ↦ found (record {
              condition_id = cid;
              question = question;
              yes_token_id = ids.0;
              no_token_id = ids.1;
              end_time_ms = end_ms market;
            })
          ]
        ]

    -- One market in `fetch_gamma_page`.
    unfoldable pub examine : Text → BookState F → Option Object → Verdict
    examine filter books none = skipped
    examine filter books (some market) = elim (get_string (codes "question") market) [
      | none ↦ skipped
      | some question ↦
          if not (matches_filter question filter)
          then counted
          else elim (get_string (codes "conditionId") market) [
            | none ↦ skipped
            | some cid ↦ if has cid books then counted else take_market question cid market
          ]
    ]

    -- One market in `fetch_gamma_page_worker`, which does not see the books.
    unfoldable pub examine_alone : Text → Option Object → Verdict
    examine_alone filter none = skipped
    examine_alone filter (some market) = elim (get_string (codes "question") market) [
      | none ↦ skipped
      | some question ↦
          if not (matches_filter question filter)
          then counted
          else elim (get_string (codes "conditionId") market) [
            | none ↦ counted
            | some cid ↦ take_market question cid market
          ]
    ]
