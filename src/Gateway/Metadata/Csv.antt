-- ===== src/Gateway/Metadata/Csv.antt =====
-- One row of the metadata file, written and read back.
use polymarket_tickscope.Base.{
  ℕ, ◌≡◌, ◌≢◌, refl, sym, ap, ◌∙◌, [], ◌∷◌, ◌++◌, append_assoc, All, false, some, if_neg, arith,
  ◌==◌, if◌then◌else◌, ℕ_discrete, Bool-cases, ==_iff, inl, inr,
}
use polymarket_tickscope.Base.Text.{Text, c_str}
use polymarket_tickscope.Gateway.Metadata.{
  Printf, TokenMeta, comma, quote, is_newline, escape_body, csv_escape_question, split_comma,
  unquote, skip_comma, read_question, starts_with_one, after_comma, row, parse_row,
}

-- What a question is after a round trip: its newlines are spaces.
unfoldable pub clean : Text → Text
clean [] = []
clean (c ∷ cs) = (if is_newline c then 32 else c) ∷ clean cs

-- A field that is written as it is: no comma, and no NUL.
abbrev pub IsPlain : Text → Type 0
IsPlain = All (λ c. ((c == comma) ≡ false) × (c ≢ 0))

c_str_plain : (cs : Text) → All (λ c. c ≢ 0) cs → c_str cs ≡ cs
unfolding c_str
c_str_plain [] h = refl
c_str_plain (c ∷ cs) h = if_neg (ℕ_discrete c 0) h.0 _ _ ∙ ap (◌∷◌ c) (c_str_plain cs h.1)

split_comma-append :
    (field rest : Text) → IsPlain field → split_comma (field ++ comma ∷ rest) ≡ some (field, rest)
unfolding split_comma
split_comma-append [] rest h = refl
split_comma-append (c ∷ field) rest h = rw (h.0.0, split_comma-append field rest h.1) refl

then_char : ℕ → Text × Text → Text × Text
then_char c (field, rest) = (c ∷ field, rest)

unquote-other :
    (c : ℕ) (cs : Text) → (c == quote) ≡ false → unquote (c ∷ cs) ≡ then_char c (unquote cs)
unfolding unquote then_char
unquote-other c [] h = rw h refl
unquote-other c (d ∷ cs) h = rw h refl

unquote-doubled : (cs : Text) → unquote (quote ∷ quote ∷ cs) ≡ then_char quote (unquote cs)
unfolding unquote then_char
unquote-doubled cs = refl

-- The escaped text, its closing quote and a comma are read back as the clean text.
unquote-escape_body :
    (q rest : Text) → unquote (escape_body q ++ quote ∷ comma ∷ rest) ≡ (clean q, comma ∷ rest)
unfolding unquote escape_body clean then_char
unquote-escape_body [] rest = refl
unquote-escape_body (c ∷ q) rest = elim (Bool-cases (is_newline c)) [
  | inl e ↦
      rw (e, unquote-other 32 (escape_body q ++ quote ∷ comma ∷ rest) refl)
        (ap (then_char 32) (unquote-escape_body q rest))
  | inr e ↦ elim (Bool-cases (c == quote)) [
    | inl b ↦
        rw (e, b)
          (ap (then_char quote) (unquote-escape_body q rest)
            ∙ ap (λ (k : ℕ). (k ∷ clean q, comma ∷ rest)) (sym ((==_iff c quote).0 b)))
    | inr b ↦
        rw (e, b, unquote-other c (escape_body q ++ quote ∷ comma ∷ rest) b)
          (ap (then_char c) (unquote-escape_body q rest))
  ]
]

-- What a row needs to be read back: plain fields, no NUL in the question, and a printed number that
-- atoi reads back.
pub record IsWritable (printf : Printf) (m : TokenMeta printf.Int) : Type 0 where
  pub token_id : IsPlain m.token_id
  pub condition_id : IsPlain m.condition_id
  pub outcome : IsPlain m.outcome
  pub question : All (λ c. c ≢ 0) m.question
  pub end_date : IsPlain m.end_date
  pub number : printf.atoi (printf.show m.taker_fee_bps) ≡ m.taker_fee_bps

plain_chars : (cs : Text) → IsPlain cs → All (λ c. c ≢ 0) cs
plain_chars [] h = tt
plain_chars (c ∷ cs) h = (h.0.1, plain_chars cs h.1)

escape_body-All : (q : Text) → All (λ c. c ≢ 0) q → All (λ c. c ≢ 0) (escape_body q ++ quote ∷ [])
unfolding escape_body
escape_body-All [] h = (ground arith, tt)
escape_body-All (c ∷ q) h = elim (Bool-cases (is_newline c)) [
  | inl e ↦ rw e (ground arith, escape_body-All q h.1)
  | inr e ↦ elim (Bool-cases (c == quote)) [
    | inl b ↦ rw (e, b) (ground arith, (ground arith, escape_body-All q h.1))
    | inr b ↦ rw (e, b) (h.0, escape_body-All q h.1)
  ]
]

read_question-escape :
    (q rest : Text)
    → All (λ c. c ≢ 0) q
    → read_question (c_str (csv_escape_question q) ++ comma ∷ rest) ≡ some (clean q, rest)
unfolding read_question csv_escape_question skip_comma
read_question-escape q rest h =
    rw
      (
        c_str_plain (quote ∷ escape_body q ++ quote ∷ []) (ground arith, escape_body-All q h),
        append_assoc,
        unquote-escape_body q rest,
      )
      refl

module _ (printf : Printf) where
  open printf use {Int, show, atoi}

  -- A written row is read back with the newlines of its question as spaces, where its other
  -- fields have no comma and no NUL, the question has no NUL, and atoi reads back the number
  -- that was printed.
  pub parse_row-row :
      (m : TokenMeta Int)
      → IsWritable printf m
      → parse_row printf (row printf m) ≡ some (record m { question = clean m.question })
  unfolding parse_row row starts_with_one after_comma
  parse_row-row m w =
      let last : Text = (if m.active then 49 else 48) ∷ comma ∷ show m.taker_fee_bps in
      let dated : Text = m.end_date ++ comma ∷ last in
      let asked : Text = c_str (csv_escape_question m.question) ++ comma ∷ dated in
      let outcomes : Text = m.outcome ++ comma ∷ asked in
      let conditions : Text = m.condition_id ++ comma ∷ outcomes in
      rw
        (
          c_str_plain m.token_id (plain_chars m.token_id w.token_id),
          c_str_plain m.condition_id (plain_chars m.condition_id w.condition_id),
          c_str_plain m.outcome (plain_chars m.outcome w.outcome),
          c_str_plain m.end_date (plain_chars m.end_date w.end_date),
          split_comma-append m.token_id conditions w.token_id,
          split_comma-append m.condition_id outcomes w.condition_id,
          split_comma-append m.outcome asked w.outcome,
          read_question-escape m.question dated w.question,
          split_comma-append m.end_date last w.end_date,
        )
        (elim (Bool-cases m.active) [
          | inl e ↦ rw (e, w.number) refl
          | inr e ↦ rw (e, w.number) refl
        ])
