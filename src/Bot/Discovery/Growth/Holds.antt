-- ===== src/Bot/Discovery/Growth/Holds.antt =====
-- From what holds of the markets found to what holds of the markets in the books.
use polymarket_tickscope.Base.{
  ◌≡◌, sym, subst, ◌∙◌, ◌⊎◌, inl, inr, List, [], ◌∷◌, ◌++◌, All, All-map, true, Option, some, ite,
  arith,
}
use polymarket_tickscope.Base.Text.{Text, text_eq}
use polymarket_tickscope.Base.Dict.{find}
use polymarket_tickscope.Gateway.Metadata.{is_known}
use polymarket_tickscope.Gateway.Metadata.Known.{
  is_known-cons, is_known_self, is_known-append_left, is_known-append_right,
}
use polymarket_tickscope.Bot.Books.{MarketMeta, BookState, get_meta, empty_state}
use polymarket_tickscope.Bot.Discovery.Growth.{legs, find_meta}

module _ (P : MarketMeta → Type 0) where
  -- A market found among some, or else as before, has what they all have.
  find_meta-All :
      (cid : Text) (ms : List MarketMeta) (old : Option MarketMeta) (m : MarketMeta)
      → All P ms
      → find_meta cid ms old ≡ some m
      → P m ⊎ (old ≡ some m)
  unfolding find_meta
  find_meta-All cid [] old m all e = inr e
  find_meta-All cid (x ∷ ms) old m all e =
      elim (find_meta-All cid ms (ite (text_eq x.condition_id cid) (some x) old) m all.1 e) [
        | inl b ↦ inl b
        | inr f ↦ elim (text_eq x.condition_id cid) [
          | yes same ↦ let is_x : x ≡ m = ground (arith, f) in inl (subst P is_x all.0)
          | no other ↦ inr (ground (arith, f))
        ]
      ]

  module _ {F : Type 0} where
    -- Every market of the books has it.
    abbrev pub Holds : BookState F → Type 0
    Holds books = (cid : Text) (m : MarketMeta) → get_meta cid books ≡ some m → P m

    pub grown-Holds :
        (old new : BookState F) (ms : List MarketMeta)
        → All P ms
        → ((cid : Text) → get_meta cid new ≡ find_meta cid ms (get_meta cid old))
        → Holds old
        → Holds new
    grown-Holds old new ms all metas h cid m e =
        elim (find_meta-All cid ms (get_meta cid old) m all (sym (metas cid) ∙ e)) [
          | inl b ↦ b
          | inr f ↦ h cid m f
        ]

  pub empty_state-Holds : (F : Type 0) → Holds (empty_state {F = F})
  unfolding get_meta find
  empty_state-Holds F cid m e = absurd (cc e)

-- Both tokens of the market are among these.
abbrev pub Both : List Text → MarketMeta → Type 0
Both tokens m = (is_known m.yes_token_id tokens ≡ true) × (is_known m.no_token_id tokens ≡ true)

pub Both-left : (xs ys : List Text) (m : MarketMeta) → Both xs m → Both (xs ++ ys) m
Both-left xs ys m b =
    (is_known-append_left m.yes_token_id xs ys b.0, is_known-append_left m.no_token_id xs ys b.1)

pub Both-right : (xs ys : List Text) (m : MarketMeta) → Both ys m → Both (xs ++ ys) m
Both-right xs ys m b =
    (is_known-append_right m.yes_token_id xs ys b.0, is_known-append_right m.no_token_id xs ys b.1)

Both-self : (known : List Text) (m : MarketMeta) → Both (m.yes_token_id ∷ m.no_token_id ∷ known) m
Both-self known m = (
  is_known_self m.yes_token_id (m.no_token_id ∷ known),
  is_known-cons m.no_token_id m.yes_token_id (m.no_token_id ∷ known)
      (is_known_self m.no_token_id known),
)

pub legs-Both : (ms : List MarketMeta) → All (Both (legs ms)) ms
unfolding legs
legs-Both [] = tt
legs-Both (m ∷ ms) = (
  Both-self (legs ms) m,
  All-map (Both (legs ms)) (Both (m.yes_token_id ∷ m.no_token_id ∷ legs ms))
      (Both-right (m.yes_token_id ∷ m.no_token_id ∷ []) (legs ms)) ms (legs-Both ms),
)
