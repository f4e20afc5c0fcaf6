-- ===== src/Gateway/Filter.antt =====
-- src/gateway/MarketDiscovery.cpp: `filter_by_question`, the tokens whose question has one of the
-- comma-separated terms, in any case.
use polymarket_tickscope.Base.{
  ◌+◌, ◌≡◌, refl, if_either, List, [], ◌∷◌, ◌++◌, Bool, true, false, ◌&&◌, ◌||◌, ltb, ◌==◌,
  if◌then◌else◌,
}
use polymarket_tickscope.Base.Text.{Text}
use polymarket_tickscope.Gateway.Metadata.{TokenMeta, comma, is_empty}

-- `tolower` in the C locale.
unfoldable pub to_lower : Text → Text
to_lower [] = []
to_lower (c ∷ cs) = (if ltb 64 c && ltb c 91 then c + 32 else c) ∷ to_lower cs

unfoldable pub drop_spaces : Text → Text
drop_spaces [] = []
drop_spaces (c ∷ cs) = let rest = drop_spaces cs in if c == 32 then rest else c ∷ cs

unfoldable pub drop_last_spaces : Text → Text
drop_last_spaces [] = []
drop_last_spaces (c ∷ cs) = elim (drop_last_spaces cs) [
  | [] ↦ if c == 32 then [] else c ∷ []
  | d ∷ ds ↦ c ∷ d ∷ ds
]

unfoldable pub starts_with : Text → Text → Bool
starts_with [] cs = true
starts_with (t ∷ ts) [] = false
starts_with (t ∷ ts) (c ∷ cs) = (t == c) && starts_with ts cs

-- `text.find(term) != npos`.
unfoldable pub contains_text : Text → Text → Bool
contains_text term [] = starts_with term []
contains_text term (c ∷ cs) = starts_with term (c ∷ cs) || contains_text term cs

-- A term in lower case without the spaces around it, unless it is all spaces.
unfoldable pub push_term : Text → List Text → List Text
push_term tok terms = elim (drop_last_spaces (drop_spaces (to_lower tok))) [
  | [] ↦ terms
  | c ∷ cs ↦ (c ∷ cs) ∷ terms
]

-- The loop over the filter; `tok` is what has been read since the last comma.
unfoldable pub terms_from : Text → Text → List Text
terms_from tok [] = push_term tok []
terms_from tok (c ∷ cs) =
    let next = terms_from [] cs in
    let longer = terms_from (tok ++ c ∷ []) cs in if c == comma then push_term tok next else longer

unfoldable pub filter_terms : Text → List Text
filter_terms filter_csv = terms_from [] filter_csv

unfoldable pub has_term : Text → List Text → Bool
has_term question [] = false
has_term question (term ∷ rest) = contains_text term question || has_term question rest

module _ {Int : Type 0} where
  unfoldable pub matching : List Text → List (TokenMeta Int) → List (TokenMeta Int)
  matching terms [] = []
  matching terms (m ∷ ms) =
      let rest = matching terms ms in
      if has_term (to_lower m.question) terms then m ∷ rest else rest

  abbrev pub select : List Text → List (TokenMeta Int) → List (TokenMeta Int)
  select [] tokens = tokens
  select (t ∷ ts) tokens = matching (t ∷ ts) tokens

  pub filter_by_question : List (TokenMeta Int) → Text → List (TokenMeta Int)
  filter_by_question tokens filter_csv =
      if is_empty filter_csv then tokens else select (filter_terms filter_csv) tokens

  select-nil : (terms : List Text) → select terms [] ≡ []
  unfolding matching
  select-nil [] = refl
  select-nil (t ∷ ts) = refl

  pub filter_by_question-nil : (filter_csv : Text) → filter_by_question [] filter_csv ≡ []
  unfolding filter_by_question
  filter_by_question-nil filter_csv =
      if_either (λ ms. ms ≡ []) (is_empty filter_csv) (λ _. refl)
        (λ _. select-nil (filter_terms filter_csv))
