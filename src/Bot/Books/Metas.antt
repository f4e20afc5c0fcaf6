-- ===== src/Bot/Books/Metas.antt =====
-- What a market's metadata say stays so: quotes do not touch them, and a market is added once.
use polymarket_tickscope.Base.{
  ◌≡◌, ◌≢◌, refl, sym, subst, ◌∙◌, none, some, Option-cases, Bool-cases, inl, inr,
}
use polymarket_tickscope.Base.Text.{Text, text_eq}
use polymarket_tickscope.Base.Dict.{find, contains, contains-find, find-assign_ne}
use polymarket_tickscope.Bot.Books.{
  MarketBook, MarketMeta, BookState, get_meta, add_market, tick_market, on_tick,
}
use polymarket_tickscope.Bot.Books.Invariant.{IsValid}

none-ne-some : {A : Type 0} {a : A} → none ≡ some a → ⊥
none-ne-some e = cc e

module _ {F : Type 0} where
  abbrev pub Keeps : BookState F → BookState F → Type 0
  Keeps old new =
      (cid : Text) (m : MarketMeta) → get_meta cid old ≡ some m → get_meta cid new ≡ some m

  tick_market-metas :
      (token cid : Text) (bid ask : F) (s : BookState F)
      → (tick_market token cid bid ask s).1.metas ≡ s.metas
  unfolding tick_market
  tick_market-metas token cid bid ask s = elim (Option-cases (find text_eq cid s.books)) [
    | inl e ↦ rw (e, tick_market) refl
    | inr (bk, e) ↦ elim (Option-cases (find text_eq cid s.metas)) [
      | inl f ↦ rw (e, f, tick_market) refl
      | inr (m, f) ↦ rw (e, f, tick_market) refl
    ]
  ]

  on_tick-metas :
      (token : Text) (bid ask : F) (s : BookState F) → (on_tick token bid ask s).1.metas ≡ s.metas
  unfolding on_tick
  on_tick-metas token bid ask s = elim (Option-cases (find text_eq token s.token_to_cid)) [
    | inl e ↦ rw (e, on_tick) refl
    | inr (cid, e) ↦ rw (e, on_tick) (tick_market-metas token cid bid ask s)
  ]

  pub on_tick-get_meta :
      (token cid : Text) (bid ask : F) (s : BookState F)
      → get_meta cid (on_tick token bid ask s).1 ≡ get_meta cid s
  unfolding get_meta
  on_tick-get_meta token cid bid ask s = rw (on_tick-metas token bid ask s) refl

  pub on_tick-Keeps :
      (token : Text) (bid ask : F) (s : BookState F) → Keeps s (on_tick token bid ask s).1
  on_tick-Keeps token bid ask s cid m e = on_tick-get_meta token cid bid ask s ∙ e

  -- A market with metadata has a book.
  metas_tracked :
      (cid : Text) (m : MarketMeta) (s : BookState F)
      → IsValid s
      → find text_eq cid s.books ≡ none
      → find text_eq cid s.metas ≢ some m
  metas_tracked cid m s v new e = elim (v.paired cid) [
    | inl absent ↦ none-ne-some (sym absent.1 ∙ e)
    | inr (b, _, has_b, _, _) ↦ none-ne-some (sym new ∙ has_b)
  ]

  pub add_market-Keeps :
      (blank : MarketBook F) (meta : MarketMeta) (s : BookState F)
      → IsValid s
      → Keeps s (add_market blank meta s)
  unfolding get_meta add_market
  add_market-Keeps blank meta s v cid m e =
      elim (Bool-cases (contains text_eq meta.condition_id s.books)) [
        | inl old ↦ rw old e
        | inr new ↦
            let other : meta.condition_id ≢ cid = λ same.
              metas_tracked meta.condition_id m s v
                (contains-find text_eq meta.condition_id s.books new)
                (subst (λ x. find text_eq x s.metas ≡ some m) (sym same) e) in
            rw new (find-assign_ne text_eq meta.condition_id cid meta s.metas other ∙ e)
      ]
