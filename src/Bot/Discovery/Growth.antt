-- ===== src/Bot/Discovery/Growth.antt =====
-- What a discovery does to the books: it adds markets that were not tracked, and returns their legs.
pub mod Rounds
pub mod Loops
pub mod Holds
use polymarket_tickscope.Base.{
  ◌≡◌, ◌≢◌, refl, sym, ap, ◌∙◌, subst, ◌⊎◌, inl, inr, List, [], ◌∷◌, ◌++◌, append_assoc, All,
  All-append, Bool, true, false, Bool-cases, Option, none, some, ite, arith,
}
use polymarket_tickscope.Base.Text.{Text, text_eq}
use polymarket_tickscope.Base.Dict.{find, assign, contains, contains-find, find-assign}
use polymarket_tickscope.Bot.Books.{MarketBook, MarketMeta, BookState, has, get_meta, add_market}
use polymarket_tickscope.Bot.Books.Invariant.{
  IsValid, add_market-IsValid, added, added_books, added_metas, add_market_new, add_market_old,
}
use polymarket_tickscope.Bot.Discovery.Pages.{Found, track}

-- The tokens to subscribe to for these markets.
unfoldable pub legs : List MarketMeta → List Text
legs [] = []
legs (m ∷ ms) = m.yes_token_id ∷ m.no_token_id ∷ legs ms

legs-append : (ms ns : List MarketMeta) → legs (ms ++ ns) ≡ legs ms ++ legs ns
unfolding legs
legs-append [] ns = refl
legs-append (m ∷ ms) ns = ap (λ ts. m.yes_token_id ∷ m.no_token_id ∷ ts) (legs-append ms ns)

-- The last market of that id among them, or else the one that is given.
unfoldable pub find_meta : Text → List MarketMeta → Option MarketMeta → Option MarketMeta
find_meta cid [] old = old
find_meta cid (m ∷ ms) old = find_meta cid ms (ite (text_eq m.condition_id cid) (some m) old)

find_meta-append :
    (cid : Text) (ms ns : List MarketMeta) (old : Option MarketMeta)
    → find_meta cid (ms ++ ns) old ≡ find_meta cid ns (find_meta cid ms old)
unfolding find_meta
find_meta-append cid [] ns old = refl
find_meta-append cid (m ∷ ms) ns old =
    find_meta-append cid ms ns (ite (text_eq m.condition_id cid) (some m) old)

module _ {F : Type 0} (blank : MarketBook F) where
  -- From the first books to the second by adding these markets, each of them new at its turn.
  pub data Grows : BookState F → List MarketMeta → BookState F → Type 0 where
    still : {s : BookState F} → Grows s [] s
    more :
        {s t : BookState F} {ms : List MarketMeta} (m : MarketMeta)
        → Grows s ms t
        → has m.condition_id t ≡ false
        → Grows s (ms ++ (m ∷ [])) (add_market blank m t)

  pub Grows-IsValid :
      {s t : BookState F} {ms : List MarketMeta} → Grows s ms t → IsValid s → IsValid t
  Grows-IsValid still v = v
  Grows-IsValid (more {t} m g new) v = add_market-IsValid blank m t (Grows-IsValid g v)

  has-add_market :
      (cid : Text) (m : MarketMeta) (s : BookState F)
      → has cid s ≡ true
      → has cid (add_market blank m s) ≡ true
  unfolding has contains
  has-add_market cid m s h = elim (Bool-cases (contains text_eq m.condition_id s.books)) [
    | inl old ↦ rw (add_market_old blank m s old) h
    | inr new ↦ rw (add_market_new blank m s new) (ground (arith, added_books blank m s cid))
  ]

  Grows-has :
      {s t : BookState F} {ms : List MarketMeta} (cid : Text)
      → Grows s ms t
      → has cid s ≡ true
      → has cid t ≡ true
  Grows-has cid still h = h
  Grows-has cid (more {t} m g new) h = has-add_market cid m t (Grows-has cid g h)

  -- None of the markets was tracked at first.
  pub Grows-new :
      {s t : BookState F} {ms : List MarketMeta}
      → Grows s ms t
      → All (λ m. has m.condition_id s ≡ false) ms
  Grows-new still = tt
  Grows-new (more {s} {ms} m g new) =
      All-append (λ m. has m.condition_id s ≡ false) ms (m ∷ []) (Grows-new g)
        (elim (Bool-cases (has m.condition_id s)) [
          | inl old ↦ absurd (cc (Grows-has m.condition_id g old, new))
          | inr fresh ↦ (fresh, tt)
        ])

  get_meta-add_market :
      (cid : Text) (m : MarketMeta) (s : BookState F)
      → has m.condition_id s ≡ false
      → get_meta cid (add_market blank m s) ≡ find_meta cid (m ∷ []) (get_meta cid s)
  unfolding has get_meta find_meta
  get_meta-add_market cid m s new = rw (add_market_new blank m s new) (added_metas blank m s cid)

  -- The metadata are those of the new markets, and for the others as before.
  pub Grows-get_meta :
      {s t : BookState F} {ms : List MarketMeta} (cid : Text)
      → Grows s ms t
      → get_meta cid t ≡ find_meta cid ms (get_meta cid s)
  unfolding find_meta
  Grows-get_meta cid still = refl
  Grows-get_meta {s} cid (more {t} {ms} m g new) =
      get_meta-add_market cid m t new
      ∙ (ap (find_meta cid (m ∷ [])) (Grows-get_meta cid g)
          ∙ sym (find_meta-append cid ms (m ∷ []) (get_meta cid s)))
