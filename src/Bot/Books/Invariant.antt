-- ===== src/Bot/Books/Invariant.antt =====
-- The three maps of the book state agree: a tracked market has a book and metadata, and a token
-- leads to a market of which it is a leg.
use polymarket_tickscope.Base.{
  [], ◌≡◌, refl, ◌⊎◌, inl, inr, none, some, arith, true, false, Option-cases, Bool-cases, ite,
  subst,
}
use polymarket_tickscope.Base.Text.{Text, text_eq}
use polymarket_tickscope.Base.Dict.{find, assign, contains, find-assign, contains-find}
use polymarket_tickscope.Bot.Books.{
  MarketBook, MarketMeta, BookState, empty_state, add_market, write_leg, tick_market, on_tick,
}

module _ {F : Type 0} where
  -- Market `cid` is tracked, and `token` is one of its legs.
  pub record IsLeg (s : BookState F) (token cid : Text) : Type 0 where
    pub book : MarketBook F
    pub meta : MarketMeta
    pub has_book : find text_eq cid s.books ≡ some book
    pub has_meta : find text_eq cid s.metas ≡ some meta
    pub leg : (meta.yes_token_id ≡ token) ⊎ (meta.no_token_id ≡ token)

  pub record IsValid (s : BookState F) : Type 0 where
    pub paired :
        (cid : Text)
        → ((find text_eq cid s.books ≡ none) × (find text_eq cid s.metas ≡ none))
          ⊎ ((b : MarketBook F) × (m : MarketMeta) × (find text_eq cid s.books ≡ some b)
              × (find text_eq cid s.metas ≡ some m)
              × (m.condition_id ≡ cid))
    pub legs : (token cid : Text) → find text_eq token s.token_to_cid ≡ some cid → IsLeg s token cid

  pub empty_state-IsValid : IsValid empty_state
  unfolding find
  empty_state-IsValid = record { paired = λ cid. inl (refl, refl); legs = λ token cid e. cc }

  module _ (blank : MarketBook F) (meta : MarketMeta) (s : BookState F) where
    unfoldable pub added : BookState F
    added = record {
      books = assign text_eq meta.condition_id blank s.books;
      metas = assign text_eq meta.condition_id meta s.metas;
      token_to_cid =
          assign text_eq meta.no_token_id meta.condition_id
            (assign text_eq meta.yes_token_id meta.condition_id s.token_to_cid);
    }

    pub add_market_new :
        contains text_eq meta.condition_id s.books ≡ false → add_market blank meta s ≡ added
    unfolding add_market added
    add_market_new new = rw new

    pub add_market_old :
        contains text_eq meta.condition_id s.books ≡ true → add_market blank meta s ≡ s
    unfolding add_market
    add_market_old old = rw old

    pub added_books :
        (cid : Text)
        → find text_eq cid added.books
          ≡ ite (text_eq meta.condition_id cid) (some blank) (find text_eq cid s.books)
    unfolding added
    added_books cid = find-assign text_eq meta.condition_id cid blank s.books

    pub added_metas :
        (cid : Text)
        → find text_eq cid added.metas
          ≡ ite (text_eq meta.condition_id cid) (some meta) (find text_eq cid s.metas)
    unfolding added
    added_metas cid = find-assign text_eq meta.condition_id cid meta s.metas

    -- The legs of the new market lead to it, every other token where it led.
    pub added_tokens :
        (token : Text)
        → find text_eq token added.token_to_cid
          ≡ ite (text_eq meta.no_token_id token) (some meta.condition_id) (
              ite
                (text_eq meta.yes_token_id token)
                (some meta.condition_id)
                (find text_eq token s.token_to_cid))
    unfolding added
    added_tokens token = ground (
      arith,
      find-assign text_eq meta.no_token_id token meta.condition_id
          (assign text_eq meta.yes_token_id meta.condition_id s.token_to_cid),
      find-assign text_eq meta.yes_token_id token meta.condition_id s.token_to_cid,
    )

    new-IsLeg :
        (token : Text)
        → (meta.yes_token_id ≡ token) ⊎ (meta.no_token_id ≡ token)
        → IsLeg added token meta.condition_id
    new-IsLeg token l = record {
      book = blank;
      meta = meta;
      has_book = ground (arith, added_books meta.condition_id);
      has_meta = ground (arith, added_metas meta.condition_id);
      leg = l;
    }

    old-IsLeg :
        (token cid : Text)
        → find text_eq meta.condition_id s.books ≡ none
        → IsLeg s token cid
        → IsLeg added token cid
    old-IsLeg token cid new l = record {
      book = l.book;
      meta = l.meta;
      has_book = ground (arith, added_books cid, l.has_book);
      has_meta = ground (arith, added_metas cid, l.has_book, l.has_meta);
      leg = l.leg;
    }

    added-IsLeg :
        (token cid : Text)
        → find text_eq meta.condition_id s.books ≡ none
        → IsValid s
        → find text_eq token added.token_to_cid ≡ some cid
        → IsLeg added token cid
    added-IsLeg token cid new v e = elim (text_eq meta.no_token_id token) [
      | yes n ↦
          subst (IsLeg added token) (ground (arith, added_tokens token)) (new-IsLeg token (inr n))
      | no n ↦ elim (text_eq meta.yes_token_id token) [
        | yes y ↦
            subst (IsLeg added token) (ground (arith, added_tokens token)) (new-IsLeg token (inl y))
        | no y ↦ old-IsLeg token cid new (v.legs token cid (ground (arith, added_tokens token)))
      ]
    ]

    added-IsValid : find text_eq meta.condition_id s.books ≡ none → IsValid s → IsValid added
    added-IsValid new v = record {
      paired = λ cid. elim (text_eq meta.condition_id cid) [
        | yes same ↦
            inr
              (blank, meta, ground (arith, added_books cid), ground (arith, added_metas cid), same)
        | no other ↦ elim (v.paired cid) [
          | inl absent ↦ inl (ground (arith, added_books cid), ground (arith, added_metas cid))
          | inr (b, m, has_b, has_m, own) ↦ inr (
            b,
            m,
            ground (arith, added_books cid, has_b),
            ground (arith, added_metas cid, has_m),
            own,
          )
        ]
      ];
      legs = λ token cid e. added-IsLeg token cid new v e;
    }

    -- `add_market` keeps the three maps in agreement.
    pub add_market-IsValid : IsValid s → IsValid (add_market blank meta s)
    unfolding add_market
    add_market-IsValid v = elim (Bool-cases (contains text_eq meta.condition_id s.books)) [
      | inl old ↦ rw old v
      | inr new ↦
          rw new (
            unfold added in (added-IsValid (contains-find text_eq meta.condition_id s.books new) v))
    ]

  -- Writing the book of a tracked market.
  module _ (cid : Text) (bk : MarketBook F) (s : BookState F) where
    unfoldable pub written : BookState F
    written = record s { books = assign text_eq cid bk s.books }

    pub written_books :
        (c : Text)
        → find text_eq c written.books ≡ ite (text_eq cid c) (some bk) (find text_eq c s.books)
    unfolding written
    written_books c = find-assign text_eq cid c bk s.books

    pub written_self : find text_eq cid written.books ≡ some bk
    written_self = ground (arith, written_books cid)

    written-IsLeg : (token c : Text) → IsLeg s token c → IsLeg written token c
    unfolding written
    written-IsLeg token c l = elim (text_eq cid c) [
      | yes same ↦ record {
        book = bk;
        meta = l.meta;
        has_book = ground (arith, find-assign text_eq cid c bk s.books);
        has_meta = l.has_meta;
        leg = l.leg;
      }
      | no other ↦ record {
        book = l.book;
        meta = l.meta;
        has_book = ground (arith, find-assign text_eq cid c bk s.books, l.has_book);
        has_meta = l.has_meta;
        leg = l.leg;
      }
    ]

    pub written-IsValid : {token : Text} → IsLeg s token cid → IsValid s → IsValid written
    unfolding written
    written-IsValid l v = record {
      paired = λ c. elim (v.paired c) [
        | inl (no_book, no_meta) ↦
            inl (ground (arith, find-assign text_eq cid c bk s.books, l.has_book), no_meta)
        | inr (b, m, has_b, has_m, own) ↦ elim (text_eq cid c) [
          | yes same ↦ inr (bk, m, ground (arith, find-assign text_eq cid c bk s.books), has_m, own)
          | no other ↦
              inr (b, m, ground (arith, find-assign text_eq cid c bk s.books, has_b), has_m, own)
        ]
      ];
      legs = λ token c e. unfold written in (written-IsLeg token c (v.legs token c e));
    }

  module _ (token : Text) (bid ask : F) (s : BookState F) where
    pub on_tick_known :
        (cid : Text) (meta : MarketMeta) (bk : MarketBook F)
        → find text_eq token s.token_to_cid ≡ some cid
        → find text_eq cid s.books ≡ some bk
        → find text_eq cid s.metas ≡ some meta
        → on_tick token bid ask s ≡ (cid, written cid (write_leg meta token bid ask bk) s)
    unfolding on_tick tick_market written
    on_tick_known cid meta bk e has_book has_meta = ground arith

    pub on_tick_unknown :
        find text_eq token s.token_to_cid ≡ none → on_tick token bid ask s ≡ ([], s)
    unfolding on_tick
    on_tick_unknown e = rw (e, on_tick)

    -- A tick of any token keeps the books valid: every tracked token belongs to a market
    -- that has a book and metadata.
    pub on_tick-IsValid : IsValid s → IsValid (on_tick token bid ask s).1
    on_tick-IsValid v = elim (Option-cases (find text_eq token s.token_to_cid)) [
      | inl e ↦ rw (on_tick_unknown e) v
      | inr (cid, e) ↦
          let l = v.legs token cid e in
          rw (on_tick_known cid l.meta l.book e l.has_book l.has_meta)
            (written-IsValid cid (write_leg l.meta token bid ask l.book) s l v)
    ]
