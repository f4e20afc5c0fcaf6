-- ===== src/Gateway/Discovery/Entries.antt =====
-- src/gateway/MarketDiscovery.cpp: which tokens the loop over one array of token ids adds.
use polymarket_tickscope.Base.{
  ℕ, zero, suc, ◌≡◌, ◌↔◌, refl, sym, ap, subst, ◌∙◌, ◌⊎◌, inl, inr, List, [], ◌∷◌, ◌++◌, In,
  In-append, get_elem?, Bool, true, false, Bool-cases, Option, none, some, some_inj, if◌then◌else◌,
}
use polymarket_tickscope.Base.Text.{Text, codes}
use polymarket_tickscope.Gateway.Metadata.{TokenMeta, is_empty}
use polymarket_tickscope.Gateway.Discovery.{clob_tokens}

-- The first token of a market is the one of its YES; `first` tells whether index 0 is that.
abbrev pub outcome_of : Bool → ℕ → Text
outcome_of true zero = codes "YES"
outcome_of true (suc _) = codes "NO"
outcome_of false _ = codes "NO"

-- How many of the elements are objects.
abbrev pub objects : {A : Type 0} → List (Option A) → ℕ
objects [] = 0
objects (none ∷ xs) = objects xs
objects (some _ ∷ xs) = suc (objects xs)

outcome_later : (first : Bool) (i : ℕ) → outcome_of first (suc i) ≡ outcome_of false i
outcome_later true i = refl
outcome_later false i = refl

outcome_first : (first : Bool) → (if first then codes "YES" else codes "NO") ≡ outcome_of first zero
outcome_first true = refl
outcome_first false = refl

module _ {Int : Type 0} where
  -- The token of this array, of a market with these other fields.
  pub record IsEntry (market : TokenMeta Int) (first : Bool) (es : List (Option Text))
      (m : TokenMeta Int) : Type 0 where
    pub index : ℕ
    pub listed : get_elem? es index ≡ some (some m.token_id)
    pub named : is_empty m.token_id ≡ false
    pub same : m ≡ record market { token_id = m.token_id; outcome = outcome_of first index }

  -- The token that the loop makes of an element.
  abbrev entry : TokenMeta Int → Bool → Text → TokenMeta Int
  entry market first sv = record market {
    token_id = sv;
    outcome = if first then codes "YES" else codes "NO";
  }

  later :
      (market : TokenMeta Int) (first : Bool) (e : Option Text) (es : List (Option Text))
      (m : TokenMeta Int)
      → IsEntry market false es m
      → IsEntry market first (e ∷ es) m
  later market first e es m h = record {
    index = suc h.index;
    listed = h.listed;
    named = h.named;
    same = rw (outcome_later first h.index) h.same;
  }

  first_or_later :
      (market : TokenMeta Int) (first : Bool) (e : Option Text) (es : List (Option Text))
      (m : TokenMeta Int)
      → IsEntry market first (e ∷ es) m
      → ((e ≡ some m.token_id)
          × (m ≡ entry market first m.token_id)
          × (is_empty m.token_id ≡ false))
        ⊎ IsEntry market false es m
  first_or_later market first e es m h = go h.index h.listed h.same
    where
      go :
          (i : ℕ)
          → get_elem? (e ∷ es) i ≡ some (some m.token_id)
          → m ≡ record market { token_id = m.token_id; outcome = outcome_of first i }
          → ((e ≡ some m.token_id)
              × (m ≡ entry market first m.token_id)
              × (is_empty m.token_id ≡ false))
            ⊎ IsEntry market false es m
      go zero l s = inl (some_inj l, rw (outcome_first first) s, h.named)
      go (suc i) l s =
          inr (record {
            index = i;
            listed = l;
            named = h.named;
            same = rw (← outcome_later first i) s;
          })

  pub clob_tokens-In :
      (market : TokenMeta Int) (es : List (Option Text)) (first : Bool) (out : List (TokenMeta Int))
      (m : TokenMeta Int)
      → In m (clob_tokens market first es out) ↔ (In m out ⊎ IsEntry market first es m)
  unfolding clob_tokens
  clob_tokens-In market [] first out m =
      (inl, λ s. elim s [ inl h ↦ h | inr e ↦ absurd (let l = e.listed in cc l) ])
  clob_tokens-In market (none ∷ es) first out m =
      let (to, from) = clob_tokens-In market es false out m in
      (
        λ h. elim (to h) [ inl a ↦ inl a | inr e ↦ inr (later market first none es m e) ],
        λ s. elim s [
          | inl h ↦ from (inl h)
          | inr e ↦ elim (first_or_later market first none es m e) [
            | inl f ↦ absurd (let l = f.0 in cc l)
            | inr e' ↦ from (inr e')
          ]
        ],
      )
  clob_tokens-In market (some sv ∷ es) first out m = elim (Bool-cases (is_empty sv)) [
    | inl empty ↦ rw (clob_tokens, empty) (empty_entry (clob_tokens-In market es false out m) empty)
    | inr named ↦
        rw (clob_tokens, named)
          (new_entry (clob_tokens-In market es false (out ++ entry market first sv ∷ []) m) named)
  ]
    where
      empty_entry :
          In m (clob_tokens market false es out) ↔ (In m out ⊎ IsEntry market false es m)
          → is_empty sv ≡ true
          → In m (clob_tokens market false es out)
            ↔ (In m out ⊎ IsEntry market first (some sv ∷ es) m)
      empty_entry (to, from) empty = (
        λ h. elim (to h) [ inl a ↦ inl a | inr e ↦ inr (later market first (some sv) es m e) ],
        λ s. elim s [
          | inl h ↦ from (inl h)
          | inr e ↦ elim (first_or_later market first (some sv) es m e) [
            | inl f ↦ absurd (cc (some_inj f.0, f.2, empty))
            | inr e' ↦ from (inr e')
          ]
        ],
      )

      new_entry :
          In m (clob_tokens market false es (out ++ entry market first sv ∷ []))
            ↔ (In m (out ++ entry market first sv ∷ []) ⊎ IsEntry market false es m)
          → is_empty sv ≡ false
          → In m (clob_tokens market false es (out ++ entry market first sv ∷ []))
            ↔ (In m out ⊎ IsEntry market first (some sv ∷ es) m)
      new_entry (to, from) named = (
        λ h. elim (to h) [
          | inl a ↦ elim ((In-append m out (entry market first sv ∷ [])).0 a) [
            | inl old ↦ inl old
            | inr new ↦ elim new [ inl e ↦ inr (first_entry e) | inr over ↦ absurd over ]
          ]
          | inr e ↦ inr (later market first (some sv) es m e)
        ],
        λ s. elim s [
          | inl h ↦ from (inl ((In-append m out (entry market first sv ∷ [])).1 (inl h)))
          | inr e ↦ elim (first_or_later market first (some sv) es m e) [
            | inl f ↦ from (
                inl (
                  (In-append m out (entry market first sv ∷ [])).1
                    (inr (inl (f.1 ∙ ap (entry market first) (sym (some_inj f.0)))))))
            | inr e' ↦ from (inr e')
          ]
        ],
      )
        where
          first_entry : m ≡ entry market first sv → IsEntry market first (some sv ∷ es) m
          first_entry e = record {
            index = zero;
            listed = ap (λ (x : TokenMeta Int). some (some x.token_id)) (sym e);
            named = subst (λ (x : TokenMeta Int). is_empty x.token_id ≡ false) (sym e) named;
            same =
                subst
                  (λ (x : TokenMeta Int).
                    x ≡ record market { token_id = x.token_id; outcome = outcome_of first zero })
                  (sym e)
                  (ap (λ o. record market { token_id = sv; outcome = o }) (outcome_first first));
          }
