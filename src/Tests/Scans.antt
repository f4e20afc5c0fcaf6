-- ===== src/Tests/Scans.antt =====
-- The two discoveries at concrete pages, each of one market.
use polymarket_tickscope.Base.{ℕ, ◌≡◌, refl, List, [], ◌∷◌, true, false, Option, none, some}
use polymarket_tickscope.Base.Text.{Text, codes}
use polymarket_tickscope.Base.Json.{Json, object}
use polymarket_tickscope.Base.Http.{Response, body_if_ok}
use polymarket_tickscope.Bot.Books.{MarketBook, MarketMeta, empty_state, empty_market_book}
use polymarket_tickscope.Bot.Books.Invariant.{empty_state-IsValid}
use polymarket_tickscope.Bot.Discovery.{Calendar}
use polymarket_tickscope.Bot.Discovery.Pages.{Get, path_of}
use polymarket_tickscope.Bot.Discovery.Scan.{Scan, max_pages, scan_all, tail_poll}
use polymarket_tickscope.Bot.Discovery.Sequential.{in_order, scan_all-in_order}
use polymarket_tickscope.Bot.Discovery.Growth.Loops.{Learns, scan_all-Learns, tail_poll-Learns}
use polymarket_tickscope.Bot.Discovery.Offline.{IsDown, discovery_offline}
use polymarket_tickscope.Gateway.Metadata.{TokenMeta}
use polymarket_tickscope.Bot.Orders.{Env, paper_gateway, open_paper}
use polymarket_tickscope.Bot.Strategy.{default_params}
use polymarket_tickscope.Bot.Main.{Bot, startup}
use polymarket_tickscope.Bot.Main.Subscribed.{Tracked, polls, polls-startup-Tracked}
use polymarket_tickscope.Tests.Fixed.{ℤ, pos, fixed}

abbrev pub page : Json ℤ
page = record {
  Document = ℕ;
  Object = ℕ;
  iterate = λ _. some 0;
  type = λ _. some object;
  doc_object = λ doc. some doc;
  doc_array = λ _. some (some 0 ∷ []);
  doc_strings = λ _. some (some (codes "y") ∷ some (codes "n") ∷ []);
  get_string = λ key _. some key;
  get_bool = λ _ _. some true;
  get_double = λ _ _. none;
  get_uint64_in_string = λ _ _. none;
  get_double_in_string = λ _ _. none;
  get_array = λ _ _. none;
}

abbrev pub calendar : Calendar
calendar = record {
  strptime = λ _ _.
      some (record { tm_year = 126; tm_mon = 2; tm_mday = 5; tm_hour = 0; tm_min = 0; tm_sec = 0 });
  timegm = λ _. some 1000000;
}

abbrev pub answers : ℕ → Get
answers offset attempt path = some (record { status = 200; body = codes "[]" })

abbrev silence : ℕ → Get
silence offset attempt path = none

abbrev pub noon : ℕ → ℕ → ℕ
noon offset i = 5

abbrev blank : MarketBook ℤ
blank = empty_market_book fixed

scan_all-in_order_example :
    scan_all blank page calendar [] answers noon 0 empty_state
    ≡ some (
        in_order blank page calendar [] answers noon max_pages 0
          (record { found_so_far = (empty_state, []); last_offset = 0; done = false }))
scan_all-in_order_example = scan_all-in_order blank page calendar [] answers noon 0 empty_state

scan_all-Learns_example :
    (c : Scan ℤ) × (ms : List MarketMeta) × (scan_all blank page calendar [] answers noon 0
        empty_state
      ≡ some c)
    × Learns blank empty_state [] page calendar answers noon ms c.found_so_far
scan_all-Learns_example =
    scan_all-Learns blank empty_state [] page calendar answers noon 0 empty_state-IsValid

tail_poll-Learns_example :
    (ms : List MarketMeta) × Learns blank empty_state [] page calendar answers noon ms
      (tail_poll blank page calendar [] answers noon 200 empty_state).1
tail_poll-Learns_example =
    tail_poll-Learns blank empty_state [] page calendar answers noon 200 empty_state-IsValid

unanswered : (o : ℕ) → IsDown (silence o) (path_of o)
unfolding body_if_ok
unanswered o n = refl

discovery_offline_example :
    (scan_all blank page calendar [] silence noon 200 empty_state
      ≡ some (record { found_so_far = (empty_state, []); last_offset = 200; done = false }))
    × (tail_poll blank page calendar [] silence noon 200 empty_state ≡ (200, (empty_state, [])))
discovery_offline_example =
    discovery_offline blank page calendar [] silence noon 200 empty_state unanswered

abbrev fee : ℤ → ℕ
fee _ = 25

abbrev one_page : Text → Option Response
one_page path = answers 0 0 path

-- The YES of the market of each page, as the discovery lists it.
abbrev listed : TokenMeta ℕ
listed = record {
  token_id = codes "y";
  condition_id = codes "conditionId";
  outcome = codes "YES";
  question = codes "question";
  end_date = codes "endDateIso";
  active = true;
  taker_fee_bps = 0;
}

abbrev pub env : Env
env = record { now_ms = 999000; log_opens = true }

polls-startup-Tracked_example :
    (b : Bot fixed (paper_gateway fixed) (default_params fixed)) × (startup fixed
        (paper_gateway fixed)
        (default_params fixed)
        page
        calendar
        []
        answers
        noon
        (open_paper fixed (pos 100))
      ≡ some b)
    × Tracked fixed (paper_gateway fixed) (default_params fixed) [] (
        polls fixed
          (paper_gateway fixed)
          (default_params fixed)
          page
          calendar
          []
          ((answers, noon, env) ∷ [])
          b)
polls-startup-Tracked_example =
    polls-startup-Tracked fixed (paper_gateway fixed) (default_params fixed) page calendar []
      ((answers, noon, env) ∷ []) answers noon (open_paper fixed (pos 100))
