-- ===== src/Gateway/Discovery/Tokens.antt =====
-- src/gateway/MarketDiscovery.cpp: which tokens a discovery returns, against the pages it is answered.
use polymarket_tickscope.Base.{ℕ, ◌+◌, ◌*◌, ◌<◌, ◌≤◌, ◌≡◌, List, Option, some}
use polymarket_tickscope.Base.Text.{Text}
use polymarket_tickscope.Base.Json.{Json}
use polymarket_tickscope.Base.Http.{Response, body_if_ok, markets_of}
use polymarket_tickscope.Gateway.Metadata.{TokenMeta}
use polymarket_tickscope.Gateway.Discovery.{path_of}
use polymarket_tickscope.Gateway.Discovery.Markets.{objects, OnPage}

module _ {F Int : Type 0} (json : Json F) (to_bps : F → Int) (no_fee : Int) where
  open json use {Object}

  module _ (get : Text → Option Response) where
    -- The page at an offset is answered with status 200 and an array.
    pub record IsAnswered (offset : ℕ) (markets : List (Option Object)) : Type 0 where
      pub body : Text
      pub answered : body_if_ok (get (path_of offset)) ≡ some body
      pub read : markets_of json body ≡ some markets

    abbrev pub IsFull : ℕ → Type 0
    IsFull offset =
        (markets : List (Option Object)) × IsAnswered offset markets × (100 ≤ objects markets)

    abbrev pub Has : ℕ → TokenMeta Int → Type 0
    Has offset m =
        (markets : List (Option Object)) × IsAnswered offset markets
        × OnPage json to_bps no_fee markets m

    -- One of so many pages from an offset on has the token, and all pages before it are full.
    pub record IsListed (pages offset : ℕ) (m : TokenMeta Int) : Type 0 where
      pub page : ℕ
      pub within : page < pages
      pub full : (k : ℕ) → k < page → IsFull (offset + k * 100)
      pub lists : Has (offset + page * 100) m
