-- ===== src/Gateway/Metadata/Index.antt =====
-- The index that the merge keeps from token ids to rows.
use polymarket_tickscope.Base.{
  ℕ, zero, suc, ◌+◌, ◌≡◌, refl, sym, ap, subst, ◌∙◌, List, [], ◌∷◌, ◌++◌, append_assoc, true,
  Option, none, some, ite, length, length-append, arith,
}
use polymarket_tickscope.Base.Text.{Text, text_eq}
use polymarket_tickscope.Base.Dict.{find, assign, find-assign}
use polymarket_tickscope.Gateway.Metadata.{TokenMeta, Printf, set_at, index_from, is_fresh}

module _ (printf : Printf) where
  open printf use {Int}

  abbrev pub Row : Type 0
  Row = TokenMeta Int

  -- The id of the row at an index.
  unfoldable pub id_at : ℕ → List Row → Option Text
  id_at i [] = none
  id_at zero (m ∷ ms) = some m.token_id
  id_at (suc i) (m ∷ ms) = id_at i ms

  pub id_at-append :
      (i : ℕ) (rows more : List Row) {id : Text}
      → id_at i rows ≡ some id
      → id_at i (rows ++ more) ≡ some id
  unfolding id_at
  id_at-append i [] more e = absurd (cc e)
  id_at-append zero (m ∷ rows) more e = e
  id_at-append (suc i) (m ∷ rows) more e = id_at-append i rows more e

  pub id_at-length :
      (rows : List Row) (m : Row) (more : List Row)
      → id_at (length rows) (rows ++ (m ∷ more)) ≡ some m.token_id
  unfolding id_at
  id_at-length [] m more = refl
  id_at-length (x ∷ rows) m more = id_at-length rows m more

  -- Replacing a row by one of the same id keeps the ids.
  pub id_at-set_at :
      (j i : ℕ) (m : Row) (rows : List Row)
      → id_at i rows ≡ some m.token_id
      → id_at j (set_at printf i m rows) ≡ id_at j rows
  unfolding id_at set_at
  id_at-set_at j i m [] e = refl
  id_at-set_at zero zero m (x ∷ rows) e = sym e
  id_at-set_at (suc j) zero m (x ∷ rows) e = refl
  id_at-set_at zero (suc i) m (x ∷ rows) e = refl
  id_at-set_at (suc j) (suc i) m (x ∷ rows) e = id_at-set_at j i m rows e

  pub is_fresh-set_at :
      (id : Text) (i : ℕ) (m : Row) (rows : List Row)
      → id_at i rows ≡ some m.token_id
      → is_fresh printf id (set_at printf i m rows) ≡ is_fresh printf id rows
  unfolding id_at set_at is_fresh
  is_fresh-set_at id i m [] e = refl
  is_fresh-set_at id zero m (x ∷ rows) e =
      let same : x.token_id ≡ m.token_id = cc e in
      ap (λ t. ite (text_eq t id) true (is_fresh printf id rows)) (sym same)
  is_fresh-set_at id (suc i) m (x ∷ rows) e =
      ap (ite (text_eq x.token_id id) true) (is_fresh-set_at id i m rows e)

  pub is_fresh-at :
      (id : Text) (i : ℕ) (rows : List Row)
      → id_at i rows ≡ some id
      → is_fresh printf id rows ≡ true
  unfolding id_at is_fresh
  is_fresh-at id i [] e = absurd (cc e)
  is_fresh-at id zero (x ∷ rows) e = let same : x.token_id ≡ id = cc e in ground arith
  is_fresh-at id (suc i) (x ∷ rows) e = ground (arith, is_fresh-at id i rows e)

  pub is_fresh-append :
      (id : Text) (rows more : List Row)
      → is_fresh printf id rows ≡ true
      → is_fresh printf id (rows ++ more) ≡ true
  unfolding is_fresh
  is_fresh-append id [] more e = absurd (cc e)
  is_fresh-append id (x ∷ rows) more e = ground (arith, is_fresh-append id rows more)

  -- The index leads to rows of its ids.
  abbrev pub Indexed : List (Text × ℕ) → List Row → Type 0
  Indexed index rows = (id : Text) (i : ℕ) → find text_eq id index ≡ some i → id_at i rows ≡ some id

  pub assign-Indexed :
      (index : List (Text × ℕ)) (rows : List Row) (id : Text) (i : ℕ)
      → id_at i rows ≡ some id
      → Indexed index rows
      → Indexed (assign text_eq id i index) rows
  assign-Indexed index rows id i e h id' j f = elim (text_eq id id') [
    | yes same ↦
        let is_i : i ≡ j = ground (arith, f, find-assign text_eq id id' i index) in
        ap (λ k. id_at k rows) (sym is_i) ∙ (e ∙ ap some same)
    | no other ↦ h id' j (ground (arith, f, find-assign text_eq id id' i index))
  ]

  pub index_from-Indexed :
      (ms before rows : List Row) (n : ℕ) (index : List (Text × ℕ))
      → rows ≡ before ++ ms
      → n ≡ length before
      → Indexed index rows
      → Indexed (index_from printf n ms index) rows
  unfolding index_from
  index_from-Indexed [] before rows n index e l h = h
  index_from-Indexed (m ∷ ms) before rows n index e l h =
      let here : id_at n rows ≡ some m.token_id =
        subst (λ k. id_at k rows ≡ some m.token_id) (sym l)
          (subst (λ r. id_at (length before) r ≡ some m.token_id) (sym e)
            (id_at-length before m ms)) in
      index_from-Indexed ms (before ++ (m ∷ [])) rows (n + 1) (assign text_eq m.token_id n index)
        (e ∙ sym (append_assoc before (m ∷ []) ms))
        (ap (λ k. k + 1) l ∙ sym (length-append before (m ∷ [])))
        (assign-Indexed index rows m.token_id n here h)

  pub set_at-Indexed :
      (index : List (Text × ℕ)) (rows : List Row) (i : ℕ) (m : Row)
      → id_at i rows ≡ some m.token_id
      → Indexed index rows
      → Indexed index (set_at printf i m rows)
  set_at-Indexed index rows i m e h id j f = id_at-set_at j i m rows e ∙ h id j f

  pub append-Indexed :
      (index : List (Text × ℕ)) (rows : List Row) (m : Row)
      → Indexed index rows
      → Indexed (assign text_eq m.token_id (length rows) index) (rows ++ (m ∷ []))
  append-Indexed index rows m h =
      assign-Indexed index (rows ++ (m ∷ [])) m.token_id (length rows) (id_at-length rows m [])
        (λ id j f. id_at-append j rows (m ∷ []) (h id j f))
