-- ===== src/Gateway/Discovery.antt =====
-- src/gateway/MarketDiscovery.cpp: `fetch_active_tokens`, the active markets of the Gamma API, page
-- by page. `to_bps` is the conversion of a fee to basis points, and `no_fee` the number 0.
pub mod Entries
pub mod Markets
pub mod Tokens
use polymarket_tickscope.Base.{
  ℕ, zero, suc, ◌+◌, List, [], ◌∷◌, ◌++◌, Bool, true, false, Option, none, some, ltb, if◌then◌else◌,
}
use polymarket_tickscope.Base.Text.{Text, codes, to_string}
use polymarket_tickscope.Base.Json.{Json}
use polymarket_tickscope.Base.Http.{Response, body_if_ok, markets_of}
use polymarket_tickscope.Gateway.Metadata.{TokenMeta, is_empty}

unfoldable pub page_size : ℕ
page_size = 100

unfoldable pub max_pages : ℕ
max_pages = 50

unfoldable pub path_of : ℕ → Text
path_of offset =
    codes "/markets?closed=false&active=true&order=volume24hr&ascending=false&limit="
    ++ (to_string page_size ++ (codes "&offset=" ++ to_string offset))

abbrev pub or_empty : Option Text → Text
or_empty none = []
or_empty (some sv) = sv

abbrev pub or_false : Option Bool → Bool
or_false none = false
or_false (some b) = b

module _ {Int : Type 0} where
  -- The loop over the token ids; `first` is `idx == 0`, and the other fields are those of `market`.
  unfoldable pub clob_tokens :
      TokenMeta Int → Bool → List (Option Text) → List (TokenMeta Int) → List (TokenMeta Int)
  clob_tokens market first [] out = out
  clob_tokens market first (none ∷ es) out = clob_tokens market false es out
  clob_tokens market first (some sv ∷ es) out = clob_tokens market false es (
      if is_empty sv
      then out
      else out
        ++ (record market { token_id = sv; outcome = if first then codes "YES" else codes "NO" }
            ∷ []))

module _ {F Int : Type 0} (json : Json F) (to_bps : F → Int) (no_fee : Int) where
  open json use {Object, iterate, doc_strings, get_string, get_bool, get_double}

  unfoldable pub parse_clob_token_ids :
      Text → TokenMeta Int → List (TokenMeta Int) → List (TokenMeta Int)
  parse_clob_token_ids raw_str market out = elim (iterate raw_str) [
    | none ↦ out
    | some inner_doc ↦ elim (doc_strings inner_doc) [
      | none ↦ out
      | some arr ↦ clob_tokens market true arr out
    ]
  ]

  unfoldable pub taker_fee : Option F → Int
  taker_fee none = no_fee
  taker_fee (some fee) = to_bps fee

  -- What a market gives each of its tokens.
  unfoldable pub market_fields : Object → TokenMeta Int
  unfolding taker_fee
  market_fields market_obj = record {
    token_id = [];
    condition_id = or_empty (get_string (codes "conditionId") market_obj);
    outcome = [];
    question = or_empty (get_string (codes "question") market_obj);
    end_date = or_empty (get_string (codes "endDateIso") market_obj);
    active = or_false (get_bool (codes "active") market_obj);
    taker_fee_bps = taker_fee (get_double (codes "takerBaseFee") market_obj);
  }

  unfoldable pub market_tokens : Object → List (TokenMeta Int) → List (TokenMeta Int)
  market_tokens market_obj out = elim (get_string (codes "clobTokenIds") market_obj) [
    | none ↦ out
    | some clob_str ↦ parse_clob_token_ids clob_str (market_fields market_obj) out
  ]

  -- The loop over a page, with its count.
  unfoldable pub read_markets :
      List (Option Object) → ℕ × List (TokenMeta Int) → ℕ × List (TokenMeta Int)
  read_markets [] now = now
  read_markets (none ∷ ms) (page_count, metadata) = read_markets ms (page_count, metadata)
  read_markets (some m ∷ ms) (page_count, metadata) =
      read_markets ms (page_count + 1, market_tokens m metadata)

  module _ (get : Text → Option Response) where
    -- At most so many more pages, from an offset on; any failure ends the loop.
    unfoldable pub fetch_from : ℕ → ℕ → List (TokenMeta Int) → List (TokenMeta Int)
    fetch_from zero offset metadata = metadata
    fetch_from (suc pages) offset metadata = elim (body_if_ok (get (path_of offset))) [
      | none ↦ metadata
      | some body ↦ elim (markets_of json body) [
        | none ↦ metadata
        | some markets ↦
            let read = read_markets markets (0, metadata) in
            let rest = fetch_from pages (offset + page_size) read.1 in
            if ltb read.0 page_size then read.1 else rest
      ]
    ]

    unfoldable pub fetch_active_tokens : List (TokenMeta Int)
    fetch_active_tokens = fetch_from max_pages 0 []
