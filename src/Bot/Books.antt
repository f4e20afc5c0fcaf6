-- ===== src/Bot/Books.antt =====
-- src/bot/BookState.hpp and BookState.cpp: the books of the tracked markets, both legs together.
-- Each method holds the mutex for its whole body, so it is one step on the state. A `double` is
-- only moved here, except by the four small methods of `MarketBook`.
pub mod Invariant
pub mod Ticks
pub mod Metas
use polymarket_tickscope.Base.{
  ℕ, List, [], ◌∷◌, Bool, true, false, ◌&&◌, Option, none, some, ite, length, if◌then◌else◌,
}
use polymarket_tickscope.Base.Text.{Text, text_eq}
use polymarket_tickscope.Base.Dict.{find, assign, contains}
use polymarket_tickscope.Base.Double.{Double}

pub record MarketBook (F : Type 0) : Type 0 where
  pub yes_bid : F
  pub yes_ask : F
  pub no_bid : F
  pub no_ask : F

-- `end_time_ms` is never negative; 0 means unknown.
pub record MarketMeta : Type 0 where
  pub condition_id : Text
  pub question : Text
  pub yes_token_id : Text
  pub no_token_id : Text
  pub end_time_ms : ℕ

module _ (num : Double) where
  open num use {F, decimal, add, div, lt}

  abbrev pub empty_market_book : MarketBook F
  empty_market_book = record {
    yes_bid = decimal 0 0;
    yes_ask = decimal 0 0;
    no_bid = decimal 0 0;
    no_ask = decimal 0 0;
  }

  unfoldable pub yes_mid : MarketBook F → F
  yes_mid bk = div (add bk.yes_bid bk.yes_ask) (decimal 2 0)

  unfoldable pub no_mid : MarketBook F → F
  no_mid bk = div (add bk.no_bid bk.no_ask) (decimal 2 0)

  unfoldable pub yes_valid : MarketBook F → Bool
  yes_valid bk = lt (decimal 0 0) bk.yes_bid && lt bk.yes_bid bk.yes_ask

  unfoldable pub no_valid : MarketBook F → Bool
  no_valid bk = lt (decimal 0 0) bk.no_bid && lt bk.no_bid bk.no_ask

pub record BookState (F : Type 0) : Type 0 where
  pub books : List (Text × MarketBook F)
  pub metas : List (Text × MarketMeta)
  pub token_to_cid : List (Text × Text)

module _ {F : Type 0} where
  abbrev pub empty_state : BookState F
  empty_state = record { books = []; metas = []; token_to_cid = [] }

  unfoldable pub has : Text → BookState F → Bool
  has cid s = contains text_eq cid s.books

  unfoldable pub get_book : Text → BookState F → Option (MarketBook F)
  get_book cid s = find text_eq cid s.books

  unfoldable pub get_meta : Text → BookState F → Option MarketMeta
  get_meta cid s = find text_eq cid s.metas

  pub size : BookState F → ℕ
  size s = length s.books

  -- `blank` is the default-constructed book.
  pub add_market : MarketBook F → MarketMeta → BookState F → BookState F
  add_market blank meta s = if contains text_eq meta.condition_id s.books then s else record {
    books = assign text_eq meta.condition_id blank s.books;
    metas = assign text_eq meta.condition_id meta s.metas;
    token_to_cid =
        assign text_eq meta.no_token_id meta.condition_id
          (assign text_eq meta.yes_token_id meta.condition_id s.token_to_cid);
  }

  -- The leg of the token, by the market's metadata.
  unfoldable pub write_leg : MarketMeta → Text → F → F → MarketBook F → MarketBook F
  write_leg meta token bid ask bk =
      ite (text_eq meta.yes_token_id token) (record bk { yes_bid = bid; yes_ask = ask })
        (record bk { no_bid = bid; no_ask = ask })

  pub tick_market : Text → Text → F → F → BookState F → Text × BookState F
  tick_market token cid bid ask s = elim (find text_eq cid s.books) [
    | none ↦ ([], s)
    | some bk ↦ elim (find text_eq cid s.metas) [
      | none ↦ ([], s)
      | some meta ↦
          (cid, record s { books = assign text_eq cid (write_leg meta token bid ask bk) s.books })
    ]
  ]

  -- The market's id, or the empty string for a token that belongs to none.
  pub on_tick : Text → F → F → BookState F → Text × BookState F
  unfolding tick_market
  on_tick token bid ask s = elim (find text_eq token s.token_to_cid) [
    | none ↦ ([], s)
    | some cid ↦ tick_market token cid bid ask s
  ]
