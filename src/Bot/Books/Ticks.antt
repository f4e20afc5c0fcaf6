-- ===== src/Bot/Books/Ticks.antt =====
-- Which quotes a tick and a new market change.
use polymarket_tickscope.Base.{
  ◌+◌, ◌≡◌, ◌≢◌, refl, ◌∙◌, inl, inr, [], ◌∷◌, List, false, none, some, arith, Bool-cases, length,
  if◌then◌else◌, ap,
}
use polymarket_tickscope.Base.Text.{Text, text_eq}
use polymarket_tickscope.Base.Dict.{find, assign, contains, contains-find}
use polymarket_tickscope.Bot.Books.{
  MarketBook, MarketMeta, BookState, has, get_book, get_meta, size, add_market, write_leg, on_tick,
}
use polymarket_tickscope.Bot.Books.Invariant.{
  IsLeg, IsValid, added_tokens, added_books, added_metas, added, written, written_books,
  written_self, on_tick_known,
}

length-assign_new :
    {V : Type 0} (k : Text) (v : V) (m : List (Text × V))
    → find text_eq k m ≡ none
    → length (assign text_eq k v m) ≡ length m + 1
unfolding find assign
length-assign_new k v [] h = omega arith
length-assign_new k v ((j, w) ∷ m) h = ground (arith, length-assign_new k v m)

module _ {F : Type 0} where
  -- A tick of a known token: its market is reported, that market's leg gets the two prices and
  -- keeps the other leg, and no other market's book changes.
  pub on_tick_lem :
      (token : Text) (bid ask : F) (s : BookState F) {cid : Text}
      → IsValid s
      → find text_eq token s.token_to_cid ≡ some cid
      → (meta : MarketMeta) × (bk : MarketBook F) × (get_meta cid s ≡ some meta)
        × (get_book cid s ≡ some bk)
        × ((on_tick token bid ask s).0 ≡ cid)
        × (get_book cid (on_tick token bid ask s).1 ≡ some (write_leg meta token bid ask bk))
        × ((c : Text) → c ≢ cid → get_book c (on_tick token bid ask s).1 ≡ get_book c s)
  unfolding get_book get_meta
  on_tick_lem token bid ask s {cid} v e =
      (l.meta, l.book, l.has_meta, l.has_book, ap (λ t. t.0) step, own, other)
    where
      l : IsLeg s token cid
      l = v.legs token cid e

      bk : MarketBook F
      bk = write_leg l.meta token bid ask l.book

      step : on_tick token bid ask s ≡ (cid, written cid bk s)
      step = on_tick_known token bid ask s cid l.meta l.book e l.has_book l.has_meta

      own : find text_eq cid (on_tick token bid ask s).1.books ≡ some bk
      own = rw step (ground (arith, written_books cid bk s cid))

      other :
          (c : Text)
          → c ≢ cid
          → find text_eq c (on_tick token bid ask s).1.books ≡ find text_eq c s.books
      other c ne = rw step (ground (arith, written_books cid bk s c))

  -- Adding a market makes the number of markets one more if it was not tracked, and leaves
  -- it otherwise.
  size-add_market :
      (blank : MarketBook F) (meta : MarketMeta) (s : BookState F)
      → size (add_market blank meta s) ≡ (if has meta.condition_id s then size s else size s + 1)
  unfolding size add_market has
  size-add_market blank meta s = elim (Bool-cases (contains text_eq meta.condition_id s.books)) [
    | inl old ↦ rw old refl
    | inr new ↦ rw new (
        length-assign_new meta.condition_id blank s.books
          (contains-find text_eq meta.condition_id s.books new))
  ]

  module _ (blank : MarketBook F) (meta : MarketMeta) (s : BookState F) where
    add_market-added :
        has meta.condition_id s ≡ false → add_market blank meta s ≡ added blank meta s
    unfolding add_market added has
    add_market-added new = rw new refl

    cid : Text
    cid = meta.condition_id

    first_tick :
        (bid ask : F)
        → meta.yes_token_id ≢ meta.no_token_id
        → on_tick meta.yes_token_id bid ask (added blank meta s)
          ≡ (cid, written cid (write_leg meta meta.yes_token_id bid ask blank) (added blank meta s))
    unfolding cid
    first_tick bid ask ne =
        on_tick_known meta.yes_token_id bid ask (added blank meta s) cid meta blank
          (ground (arith, added_tokens blank meta s meta.yes_token_id))
          (ground (arith, added_books blank meta s cid))
          (ground (arith, added_metas blank meta s cid))

    second_tick :
        (bid ask : F) (bk : MarketBook F)
        → on_tick meta.no_token_id bid ask (written cid bk (added blank meta s)) ≡ (
          cid,
          written cid
              (write_leg meta meta.no_token_id bid ask bk)
              (written cid bk (added blank meta s)),
        )
    unfolding cid
    second_tick bid ask bk =
        on_tick_known meta.no_token_id bid ask (written cid bk (added blank meta s)) cid meta bk
          (unfold written in (ground (arith, added_tokens blank meta s meta.no_token_id)))
          (ground (arith, written_books cid bk (added blank meta s) cid))
          (unfold written in (ground (arith, added_metas blank meta s cid)))

    both_legs :
        (bid ask bid' ask' : F)
        → meta.yes_token_id ≢ meta.no_token_id
        → write_leg meta meta.no_token_id bid' ask' (write_leg meta meta.yes_token_id bid ask blank)
          ≡ record { yes_bid = bid; yes_ask = ask; no_bid = bid'; no_ask = ask' }
    unfolding write_leg
    both_legs bid ask bid' ask' ne = ground arith

    -- A market that was not tracked, with two different tokens, once added and then quoted
    -- on both tokens has just those four prices.
    pub add_market-on_tick :
        (bid ask bid' ask' : F)
        → has meta.condition_id s ≡ false
        → meta.yes_token_id ≢ meta.no_token_id
        → get_book meta.condition_id
            (on_tick meta.no_token_id bid' ask'
              (on_tick meta.yes_token_id bid ask (add_market blank meta s)).1).1
          ≡ some (record { yes_bid = bid; yes_ask = ask; no_bid = bid'; no_ask = ask' })
    unfolding get_book cid
    add_market-on_tick bid ask bid' ask' new ne =
        rw (add_market-added new, first_tick bid ask ne, second_tick bid' ask' _)
          (written_self cid _ _ ∙ ap some (both_legs bid ask bid' ask' ne))
