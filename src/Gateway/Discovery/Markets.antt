-- ===== src/Gateway/Discovery/Markets.antt =====
-- src/gateway/MarketDiscovery.cpp: which tokens the markets of one page add.
use polymarket_tickscope.Base.{
  ℕ, suc, ◌+◌, ◌≡◌, ◌↔◌, refl, subst, ◌⊎◌, inl, inr, List, [], ◌∷◌, In, true, Option, none, some,
  Option-cases, some_inj, arith,
}
use polymarket_tickscope.Base.Text.{Text, codes}
use polymarket_tickscope.Base.Json.{Json}
use polymarket_tickscope.Gateway.Metadata.{TokenMeta}
use polymarket_tickscope.Gateway.Discovery.{
  or_empty, or_false, taker_fee, parse_clob_token_ids, market_fields, market_tokens, read_markets,
}
use polymarket_tickscope.Gateway.Discovery.Entries.{IsEntry, clob_tokens-In}

-- How many of the elements are objects.
abbrev pub objects : {A : Type 0} → List (Option A) → ℕ
objects [] = 0
objects (none ∷ xs) = objects xs
objects (some _ ∷ xs) = suc (objects xs)

module _ {F Int : Type 0} (json : Json F) (to_bps : F → Int) (no_fee : Int) where
  open json use {Document, Object, iterate, doc_strings, get_string, get_bool, get_double}

  -- What the tokens of a market have in common, by the keys of the API.
  abbrev pub of_market : Object → TokenMeta Int
  of_market market = record {
    token_id = [];
    condition_id = or_empty (get_string (codes "conditionId") market);
    outcome = [];
    question = or_empty (get_string (codes "question") market);
    end_date = or_empty (get_string (codes "endDateIso") market);
    active = or_false (get_bool (codes "active") market);
    taker_fee_bps = taker_fee json to_bps no_fee (get_double (codes "takerBaseFee") market);
  }

  -- The market's array of token id_texts, itself a text of JSON, has the token.
  pub record IsToken (market : Object) (m : TokenMeta Int) : Type 0 where
    pub raw : Text
    pub doc : Document
    pub id_texts : List (Option Text)
    pub has_ids : get_string (codes "clobTokenIds") market ≡ some raw
    pub parsed : iterate raw ≡ some doc
    pub strings : doc_strings doc ≡ some id_texts
    pub entry : IsEntry (of_market market) true id_texts m

  pub market_tokens-In :
      (market : Object) (out : List (TokenMeta Int)) (m : TokenMeta Int)
      → In m (market_tokens json to_bps no_fee market out) ↔ (In m out ⊎ IsToken market m)
  unfolding market_tokens parse_clob_token_ids market_fields
  market_tokens-In market out m = elim (Option-cases (get_string (codes "clobTokenIds") market)) [
    | inl e ↦ rw (market_tokens, e) (only λ t. let k = t.has_ids in cc (k, e))
    | inr (raw, e) ↦ elim (Option-cases (iterate raw)) [
      | inl f ↦
          rw (market_tokens, e, parse_clob_token_ids, f)
            (only λ t. let k = t.has_ids in let l = t.parsed in cc (k, l, e, f))
      | inr (doc, f) ↦ elim (Option-cases (doc_strings doc)) [
        | inl g ↦
            rw (market_tokens, e, parse_clob_token_ids, f, g)
              (only λ t.
                let k = t.has_ids in let l = t.parsed in let n = t.strings in cc (k, l, n, e, f, g))
        | inr (id_texts, g) ↦
            let (to, from) = clob_tokens-In (of_market market) id_texts true out m in
            rw (market_tokens, e, parse_clob_token_ids, f, g)
              (
                λ h. elim (to h) [
                  | inl a ↦ inl a
                  | inr t ↦ inr (record {
                    raw = raw;
                    doc = doc;
                    id_texts = id_texts;
                    has_ids = e;
                    parsed = f;
                    strings = g;
                    entry = t;
                  })
                ],
                λ s. elim s [
                  | inl h ↦ from (inl h)
                  | inr t ↦
                      let k = t.has_ids in
                      let l = t.parsed in
                      let n = t.strings in
                      let d : t.id_texts ≡ id_texts = cc (k, l, n, e, f, g) in
                      from (inr (subst (λ x. IsEntry (of_market market) true x m) d t.entry))
                ],
              )
      ]
    ]
  ]
    where
      only : (IsToken market m → ⊥) → In m out ↔ (In m out ⊎ IsToken market m)
      only none_here = (inl, λ s. elim s [ inl h ↦ h | inr t ↦ absurd (none_here t) ])

  -- One of the page's objects is a market with the token.
  pub record OnPage (markets : List (Option Object)) (m : TokenMeta Int) : Type 0 where
    pub market : Object
    pub present : In (some market) markets
    pub token : IsToken market m

  pub read_markets-In :
      (markets : List (Option Object)) (count : ℕ) (out : List (TokenMeta Int)) (m : TokenMeta Int)
      → In m (read_markets json to_bps no_fee markets (count, out)).1
        ↔ (In m out ⊎ OnPage markets m)
  unfolding read_markets
  read_markets-In [] count out m = (inl, λ s. elim s [ inl h ↦ h | inr t ↦ absurd t.present ])
  read_markets-In (none ∷ ms) count out m =
      let (to, from) = read_markets-In ms count out m in
      (
        λ h. elim (to h) [
          | inl a ↦ inl a
          | inr t ↦ inr (record { market = t.market; present = inr t.present; token = t.token })
        ],
        λ s. elim s [
          | inl h ↦ from (inl h)
          | inr t ↦ elim t.present [
            | inl e ↦ absurd (cc e)
            | inr p ↦ from (inr (record { market = t.market; present = p; token = t.token }))
          ]
        ],
      )
  read_markets-In (some x ∷ ms) count out m =
      let (to, from) = read_markets-In ms (count + 1) (market_tokens json to_bps no_fee x out) m in
      let (here, back) = market_tokens-In x out m in
      (
        λ h. elim (to h) [
          | inl a ↦ elim (here a) [
            | inl old ↦ inl old
            | inr t ↦ inr (record { market = x; present = inl refl; token = t })
          ]
          | inr t ↦ inr (record { market = t.market; present = inr t.present; token = t.token })
        ],
        λ s. elim s [
          | inl h ↦ from (inl (back (inl h)))
          | inr t ↦ elim t.present [
            | inl e ↦ from (inl (back (inr (subst (λ y. IsToken y m) (some_inj e) t.token))))
            | inr p ↦ from (inr (record { market = t.market; present = p; token = t.token }))
          ]
        ],
      )

  pub read_markets-count :
      (markets : List (Option Object)) (count : ℕ) (out : List (TokenMeta Int))
      → (read_markets json to_bps no_fee markets (count, out)).0 ≡ count + objects markets
  unfolding read_markets
  read_markets-count [] count out = omega arith
  read_markets-count (none ∷ ms) count out = read_markets-count ms count out
  read_markets-count (some x ∷ ms) count out =
      let ih = read_markets-count ms (count + 1) (market_tokens json to_bps no_fee x out) in
      omega (arith, ih)
