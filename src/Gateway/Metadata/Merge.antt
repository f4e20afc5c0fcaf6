-- ===== src/Gateway/Metadata/Merge.antt =====
-- What merging the tokens found into the metadata file keeps.
use polymarket_tickscope.Base.{
  ℕ, ◌≡◌, refl, sym, ap₂, subst, ◌∙◌, ◌⊎◌, inl, inr, List, [], ◌∷◌, ◌++◌, append_assoc, All, true,
  false, if_either, none, some, Option-cases, ite, length,
}
use polymarket_tickscope.Base.Text.{Text, text_eq}
use polymarket_tickscope.Base.Dict.{find, assign}
use polymarket_tickscope.Gateway.Metadata.{
  Printf, set_at, index_from, upsert, is_fresh, mark_delisted, merged,
}
use polymarket_tickscope.Gateway.Metadata.Index.{
  Row, id_at-length, is_fresh-set_at, is_fresh-at, is_fresh-append, Indexed, index_from-Indexed,
  set_at-Indexed, append-Indexed,
}

module _ (printf : Printf) where
  open printf use {Int}

  upsert_new :
      (fresh : List (Row printf)) (index : List (Text × ℕ)) (rows : List (Row printf))
      (m : Row printf)
      → find text_eq m.token_id index ≡ none
      → upsert printf (m ∷ fresh) index rows
        ≡ upsert printf fresh (assign text_eq m.token_id (length rows) index) (rows ++ (m ∷ []))
  unfolding upsert
  upsert_new fresh index rows m e = rw (upsert, e) refl

  upsert_old :
      (fresh : List (Row printf)) (index : List (Text × ℕ)) (rows : List (Row printf))
      (m : Row printf) (i : ℕ)
      → find text_eq m.token_id index ≡ some i
      → upsert printf (m ∷ fresh) index rows ≡ upsert printf fresh index (set_at printf i m rows)
  unfolding upsert
  upsert_old fresh index rows m i e = rw (upsert, e) refl

  -- No id is lost.
  upsert-is_fresh :
      (fresh : List (Row printf)) (index : List (Text × ℕ)) (rows : List (Row printf)) (id : Text)
      → Indexed printf index rows
      → is_fresh printf id rows ≡ true
      → is_fresh printf id (upsert printf fresh index rows) ≡ true
  unfolding upsert
  upsert-is_fresh [] index rows id h e = e
  upsert-is_fresh (m ∷ fresh) index rows id h e =
      elim (Option-cases (find text_eq m.token_id index)) [
        | inl f ↦
            rw (upsert, f)
              (upsert-is_fresh fresh (assign text_eq m.token_id (length rows) index)
                (rows ++ (m ∷ [])) id (append-Indexed printf index rows m h)
                (is_fresh-append printf id rows (m ∷ []) e))
        | inr (i, f) ↦
            rw (upsert, f)
              (upsert-is_fresh fresh index (set_at printf i m rows) id
                (set_at-Indexed printf index rows i m (h m.token_id i f) h)
                (is_fresh-set_at printf id i m rows (h m.token_id i f) ∙ e))
      ]

  abbrev pub AllListed : List (Row printf) → List (Row printf) → Type 0
  AllListed ms rows = All (λ m. is_fresh printf m.token_id rows ≡ true) ms

  -- Every new id is there.
  upsert-AllListed :
      (fresh : List (Row printf)) (index : List (Text × ℕ)) (rows : List (Row printf))
      → Indexed printf index rows
      → AllListed fresh (upsert printf fresh index rows)
  unfolding upsert
  upsert-AllListed [] index rows h = tt
  upsert-AllListed (m ∷ fresh) index rows h = elim (Option-cases (find text_eq m.token_id index)) [
    | inl f ↦
        let next = append-Indexed printf index rows m h in
        let index' = assign text_eq m.token_id (length rows) index in
        subst (AllListed (m ∷ fresh)) (sym (upsert_new fresh index rows m f)) (
          upsert-is_fresh fresh index' (rows ++ (m ∷ [])) m.token_id next (
              is_fresh-at printf m.token_id (length rows) (rows ++ (m ∷ []))
                (id_at-length printf rows m [])),
          upsert-AllListed fresh index' (rows ++ (m ∷ [])) next,
        )
    | inr (i, f) ↦
        let at = h m.token_id i f in
        let next = set_at-Indexed printf index rows i m at h in
        subst (AllListed (m ∷ fresh)) (sym (upsert_old fresh index rows m i f)) (
          upsert-is_fresh fresh index (set_at printf i m rows) m.token_id next (
              is_fresh-set_at printf m.token_id i m rows at
              ∙ is_fresh-at printf m.token_id i rows at),
          upsert-AllListed fresh index (set_at printf i m rows) next,
        )
  ]

  mark_delisted-is_fresh :
      (fresh rows : List (Row printf)) (id : Text)
      → is_fresh printf id (mark_delisted printf fresh rows) ≡ is_fresh printf id rows
  unfolding mark_delisted is_fresh
  mark_delisted-is_fresh fresh [] id = refl
  mark_delisted-is_fresh fresh (m ∷ rows) id =
      ap₂ (λ t rest. ite (text_eq t id) true rest)
        (if_either (λ (x : Row printf). x.token_id ≡ m.token_id) (is_fresh printf m.token_id fresh)
          (λ _. refl) (λ _. refl))
        (mark_delisted-is_fresh fresh rows id)

  -- Found, or inactive.
  abbrev pub IsCurrent : List (Row printf) → Row printf → Type 0
  IsCurrent fresh m = (is_fresh printf m.token_id fresh ≡ true) ⊎ (m.active ≡ false)

  mark_delisted-IsCurrent :
      (fresh rows : List (Row printf)) → All (IsCurrent fresh) (mark_delisted printf fresh rows)
  unfolding mark_delisted
  mark_delisted-IsCurrent fresh [] = tt
  mark_delisted-IsCurrent fresh (m ∷ rows) = (
    if_either (IsCurrent fresh) (is_fresh printf m.token_id fresh) (λ e. inl e) (λ _. inr refl),
    mark_delisted-IsCurrent fresh rows,
  )

  listed_still :
      (ms rows rows' : List (Row printf))
      → ((id : Text) → is_fresh printf id rows ≡ true → is_fresh printf id rows' ≡ true)
      → AllListed ms rows
      → AllListed ms rows'
  listed_still [] rows rows' k h = tt
  listed_still (m ∷ ms) rows rows' k h = (k m.token_id h.0, listed_still ms rows rows' k h.1)

  all_listed : (before ms : List (Row printf)) → AllListed ms (before ++ ms)
  all_listed before [] = tt
  all_listed before (m ∷ ms) = (
    is_fresh-at printf m.token_id (length before) (before ++ (m ∷ ms))
        (id_at-length printf before m ms),
    subst (AllListed ms) (append_assoc before (m ∷ []) ms) (all_listed (before ++ (m ∷ [])) ms),
  )

  -- After merging the tokens found into the rows of the file, every token found and every
  -- token that had a row has one, also where ids stand twice, and a row whose token was not
  -- found is inactive.
  pub merged-IsCurrent :
      (fresh existing : List (Row printf))
      → AllListed fresh (merged printf fresh existing)
        × AllListed existing (merged printf fresh existing)
        × All (IsCurrent fresh) (merged printf fresh existing)
  unfolding merged find
  merged-IsCurrent fresh existing =
      let index = index_from printf 0 existing [] in
      let rows = upsert printf fresh index existing in
      let indexed : Indexed printf index existing =
        index_from-Indexed printf existing [] existing 0 [] refl refl (λ id i f. absurd (cc f)) in
      let still =
        listed_still fresh rows (mark_delisted printf fresh rows)
          (λ id e. mark_delisted-is_fresh fresh rows id ∙ e) in
      (
        still (upsert-AllListed fresh index existing indexed),
        listed_still existing existing (mark_delisted printf fresh rows)
            (λ id e.
              mark_delisted-is_fresh fresh rows id
              ∙ upsert-is_fresh fresh index existing id indexed e)
            (all_listed [] existing),
        mark_delisted-IsCurrent fresh rows,
      )
