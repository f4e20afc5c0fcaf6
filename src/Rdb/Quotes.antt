-- ===== src/Rdb/Quotes.antt =====
-- What a reader sees: the quote of each token, and which ticks it depends on.
use polymarket_tickscope.Base.{
  ℕ, ◌<◌, ◌≡◌, List, [], ◌∷◌, Option, some, none, arith, inl, inr, Option-cases, dec_le, ite, ltb,
  if◌then◌else◌,
}
use polymarket_tickscope.Base.Text.{Text, text_eq}
use polymarket_tickscope.Base.Dict.{find, assign, find-assign}
use polymarket_tickscope.Core.{Tick}
use polymarket_tickscope.Rdb.{
  OrderBook, MarketState, max_tokens, key_of, write_side, write_book, apply_tick, apply_ticks,
  find_index, state,
}
use polymarket_tickscope.Rdb.Invariant.{
  IsValid, claimed, apply_tick_known, apply_tick_new, apply_tick_full, apply_tick-IsValid,
}

-- `find_index` and then `state`.
unfoldable pub quote : {F : Type 0} → Text → OrderBook F → Option (MarketState F)
unfolding find_index state
quote token b = elim (find_index token b) [ none ↦ none | some idx ↦ some (state idx b) ]

-- The abstract book: a token's own ticks, applied in order to its last quote.
pub replay : {F : Type 0} → Text → List (Tick F) → MarketState F → MarketState F
replay token [] ms = ms
replay token (t ∷ ts) ms = replay token ts (ite (text_eq (key_of t) token) (write_side t ms) ms)

module _ {F : Type 0} (blank : MarketState F) where
  -- The quote that a tick of this very token leaves: its side written into the last quote, or into
  -- a blank one for a new token, which a full table drops.
  abbrev pub quote_after : Tick F → OrderBook F → Option (MarketState F) → Option (MarketState F)
  quote_after tick b (some ms) = some (write_side tick ms)
  quote_after tick b none = if ltb b.next_idx max_tokens then some (write_side tick blank) else none

  quote_new :
      (tick : Tick F) (b : OrderBook F) (token : Text)
      → IsValid blank b
      → find text_eq (key_of tick) b.token_to_idx ≡ none
      → b.next_idx < max_tokens
      → quote token (write_book tick b.next_idx (claimed blank (key_of tick) b))
        ≡ ite (text_eq (key_of tick) token) (some (write_side tick blank)) (quote token b)
  unfolding quote write_book
  quote_new tick b token v new room = elim (Option-cases (find text_eq token b.token_to_idx)) [
    | inl e ↦ ground (arith, taken, v.unused b.next_idx (omega arith))
    | inr (j, e) ↦ ground (arith, taken, v.unused b.next_idx (omega arith), v.known token j e)
  ]
    where
      taken :
          find text_eq token (assign text_eq (key_of tick) b.next_idx b.token_to_idx)
          ≡ ite (text_eq (key_of tick) token) (some b.next_idx) (find text_eq token b.token_to_idx)
      taken = find-assign text_eq (key_of tick) token b.next_idx b.token_to_idx

  quote_known :
      (tick : Tick F) (b : OrderBook F) (token : Text) (i : ℕ)
      → IsValid blank b
      → find text_eq (key_of tick) b.token_to_idx ≡ some i
      → quote token (write_book tick i b)
        ≡ ite (text_eq (key_of tick) token) (some (write_side tick (b.books i))) (quote token b)
  unfolding quote write_book
  quote_known tick b token i v old = elim (Option-cases (find text_eq token b.token_to_idx)) [
    | inl e ↦ ground arith
    | inr (j, e) ↦ ground (arith, v.separate (key_of tick) token i old)
  ]

  -- A tick changes the quote of its own token only, and there just the side that it names. A new
  -- token starts from the blank quote, or is dropped when the table is full.
  pub apply_tick-quote :
      (tick : Tick F) (b : OrderBook F) (token : Text)
      → IsValid blank b
      → quote token (apply_tick tick b)
        ≡ ite (text_eq (key_of tick) token) (quote_after tick b (quote token b)) (quote token b)
  unfolding quote
  apply_tick-quote tick b token v =
      elim (Option-cases (find text_eq (key_of tick) b.token_to_idx)) [
        | inl new ↦ elim (dec_le max_tokens b.next_idx) [
          | yes full ↦ rw (apply_tick_full blank tick b new full) (ground arith)
          | no room ↦
              rw (apply_tick_new blank tick b new (omega arith))
                (ground (arith, quote_new tick b token v new (omega arith)))
        ]
        | inr (i, old) ↦
            rw (apply_tick_known blank tick b i old)
              (ground (arith, quote_known tick b token i v old))
      ]

  -- In a valid book where a token has a quote, any stream of ticks leaves that quote as the
  -- token's own ticks alone, applied in order, would; also when the table is full.
  pub apply_ticks-quote :
      (ts : List (Tick F)) (b : OrderBook F) (token : Text) (ms : MarketState F)
      → IsValid blank b
      → quote token b ≡ some ms
      → quote token (apply_ticks ts b) ≡ some (replay token ts ms)
  unfolding apply_ticks replay
  apply_ticks-quote [] b token ms v e = e
  apply_ticks-quote (t ∷ ts) b token ms v e =
      apply_ticks-quote ts (apply_tick t b) token _ (apply_tick-IsValid blank t b v)
        (ground (arith, apply_tick-quote t b token v))
