-- ===== src/Gateway/Metadata/File.antt =====
-- The whole metadata file, written and read back.
use polymarket_tickscope.Base.{
  ℕ, zero, suc, ◌+◌, ◌<◌, ◌≤◌, ◌≡◌, refl, ap, ◌∙◌, List, [], ◌∷◌, ◌++◌, map, All, Bool, true, false,
  not, ◌&&◌, ◌==◌, some, length, length-append, arith,
}
use polymarket_tickscope.Base.Text.{Text, codes, c_str}
use polymarket_tickscope.Gateway.Metadata.{
  Printf, TokenMeta, is_newline, fgets, lines, strip, row, rows, parse_row, parse_rows,
  without_header, csv_header, read_csv_tokens,
}
use polymarket_tickscope.Gateway.Metadata.Csv.{clean, IsWritable, parse_row-row}

-- Without a newline or a NUL.
abbrev pub IsUnbroken : Text → Type 0
IsUnbroken line = All (λ c. (is_newline c ≡ false) × ((c == 0) ≡ false)) line

-- A line that fgets reads at once, and whose text ends at its newline.
abbrev pub IsLine : Text → Type 0
IsLine line = (length line < 2047) × IsUnbroken line

not_lf : (c : ℕ) → is_newline c ≡ false → (c == 10) ≡ false
not_lf c h = ground arith

fgets-line :
    (line : Text) (n : ℕ) (rest : Text)
    → length line < n
    → IsUnbroken line
    → fgets n (line ++ (10 ∷ rest)) ≡ (line ++ (10 ∷ []), rest)
unfolding fgets
fgets-line line zero rest l h = absurd (omega arith)
fgets-line [] (suc n) rest l h = refl
fgets-line (c ∷ line) (suc n) rest l h =
    rw (fgets, fgets-line line n rest (omega arith) h.1, not_lf c h.0.0) refl

lines-line :
    (fuel : ℕ) (line rest : Text)
    → IsLine line
    → lines (suc fuel) (line ++ (10 ∷ rest)) ≡ (line ++ (10 ∷ [])) ∷ lines fuel rest
unfolding lines
lines-line fuel [] rest h =
    ap (λ (r : Text × Text). r.0 ∷ lines fuel r.1) (fgets-line [] 2047 rest h.0 h.1)
lines-line fuel (c ∷ line) rest h =
    ap (λ (r : Text × Text). r.0 ∷ lines fuel r.1) (fgets-line (c ∷ line) 2047 rest h.0 h.1)

c_str-line : (line : Text) → IsUnbroken line → c_str (line ++ (10 ∷ [])) ≡ line ++ (10 ∷ [])
unfolding c_str
c_str-line [] h = ground arith
c_str-line (c ∷ line) h = ground (arith, c_str-line line h.1, h.0.1)

strip-line : (line : Text) → IsUnbroken line → strip (line ++ (10 ∷ [])) ≡ line
unfolding strip
strip-line [] h = refl
strip-line (c ∷ []) h = rw (h.0.0) refl
strip-line (c ∷ d ∷ line) h = rw (strip, strip-line (d ∷ line) h.1) refl

and_parts : (a b c : Bool) → (not a && (not b && c)) ≡ true → (a ≡ false) × (b ≡ false) × (c ≡ true)
and_parts true b c h = absurd (cc h)
and_parts false true c h = absurd (cc h)
and_parts false false c h = (refl, refl, h)

-- The test that a literal has neither.
abbrev pub is_unbroken : Text → Bool
is_unbroken [] = true
is_unbroken (c ∷ cs) = not (is_newline c) && (not (c == 0) && is_unbroken cs)

pub unbroken_lem : (cs : Text) → is_unbroken cs ≡ true → IsUnbroken cs
unbroken_lem [] h = tt
unbroken_lem (c ∷ cs) h =
    let parts = and_parts (is_newline c) (c == 0) (is_unbroken cs) h in
    ((parts.0, parts.1), unbroken_lem cs parts.2)

abbrev header_line : Text
header_line = codes "asset_id,condition_id,outcome,question,end_date,active,taker_fee_bps"

header-IsLine : IsLine header_line
header-IsLine = (omega arith, unbroken_lem header_line refl)

module _ (printf : Printf) where
  open printf use {Int}

  -- The row of a token comes back as this.
  unfoldable pub reread : TokenMeta Int → TokenMeta Int
  reread m = record m { question = clean m.question }

  -- Its fields can be told apart, and its row fits the buffer.
  abbrev pub IsStorable : TokenMeta Int → Type 0
  IsStorable m = IsWritable printf m × IsLine (row printf m)

  parse_rows-found :
      (line : Text) (rest : List Text) (m : TokenMeta Int)
      → parse_row printf (strip (c_str line)) ≡ some m
      → parse_rows printf (line ∷ rest) ≡ m ∷ parse_rows printf rest
  unfolding parse_rows
  parse_rows-found line rest m e = rw (parse_rows, e) refl

  parse_rows-rows :
      (ms : List (TokenMeta Int)) (fuel : ℕ)
      → length (rows printf ms) ≤ fuel
      → All IsStorable ms
      → parse_rows printf (lines fuel (rows printf ms)) ≡ map reread ms
  unfolding parse_rows rows reread lines
  parse_rows-rows [] zero b h = refl
  parse_rows-rows [] (suc fuel) b h = refl
  parse_rows-rows (m ∷ ms) zero b h =
      absurd (omega (arith, b, length-append (row printf m) (10 ∷ rows printf ms)))
  parse_rows-rows (m ∷ ms) (suc fuel) b h =
      let line = row printf m in
      let enough : length (rows printf ms) ≤ fuel =
        omega (arith, b, length-append (row printf m) (10 ∷ rows printf ms)) in
      let back : parse_row printf (strip (c_str (line ++ (10 ∷ [])))) ≡ some (reread m) =
        ap (λ t. parse_row printf (strip t)) (c_str-line line h.0.1.1)
        ∙ (ap (parse_row printf) (strip-line line h.0.1.1) ∙ parse_row-row printf m h.0.0) in
      ap (parse_rows printf) (lines-line fuel line (rows printf ms) h.0.1)
      ∙ parse_rows-found (line ++ (10 ∷ [])) (lines fuel (rows printf ms)) (reread m) back
      ∙ ap (◌∷◌ (reread m)) (parse_rows-rows ms fuel enough h.1)

  -- The file of any number of tokens, header included, is read back as these tokens in
  -- order, with the newlines of their questions as spaces, where each can be read back from
  -- its row and that row has less than 2047 bytes, no newline and no NUL.
  pub read_csv_tokens-rows :
      (ms : List (TokenMeta Int))
      → All IsStorable ms
      → read_csv_tokens printf (some (csv_header ++ rows printf ms)) ≡ map reread ms
  unfolding read_csv_tokens csv_header without_header lines
  read_csv_tokens-rows ms h =
      let file = header_line ++ (10 ∷ rows printf ms) in
      let fuel = length header_line + length (rows printf ms) in
      let count : length file ≡ suc fuel =
        length-append header_line (10 ∷ rows printf ms) ∙ omega arith in
      ap (λ n. parse_rows printf (without_header printf (lines n file))) count
      ∙ ap (λ ls. parse_rows printf (without_header printf ls))
          (lines-line fuel header_line (rows printf ms) header-IsLine)
      ∙ parse_rows-rows ms fuel (omega arith) h
