-- ===== src/Gateway/Metadata.antt =====
-- src/gateway/MarketDiscovery.cpp: the metadata CSV, one row for each token.
-- `Disk` is the file and the temporary file beside it; whether fopen and rename succeed are
-- arguments. `%d` and `atoi` are the parameter `Printf`. The order of rows is the vector's.
pub mod Lines
pub mod Csv
pub mod Known
pub mod Index
pub mod Merge
pub mod File
use polymarket_tickscope.Base.{
  ℕ, zero, suc, ◌+◌, ◌-◌, List, [], ◌∷◌, ◌++◌, Bool, true, false, not, ◌&&◌, ◌||◌, Option, none,
  some, ite, ltb, ◌==◌, if◌then◌else◌, length, ◌>>=◌,
}
use polymarket_tickscope.Base.Text.{Text, codes, text_eq, c_str}
use polymarket_tickscope.Base.Dict.{find, assign}
unfoldable pub use polymarket_tickscope.Gateway.Metadata.Lines.{
  comma, quote, is_newline, escape_body, csv_escape_question, split_comma, unquote, skip_comma,
  read_question, starts_with_one, after_comma, strip, fgets, lines, csv_header, is_known, is_empty,
  text_leb, contents, header_if_empty,
}

pub record Printf : Type 1 where
  pub Int : Type 0
  pub show : Int → Text
  pub atoi : Text → Int

pub record TokenMeta (Int : Type 0) : Type 0 where
  pub token_id : Text
  pub condition_id : Text
  pub outcome : Text
  pub question : Text
  pub end_date : Text
  pub active : Bool
  pub taker_fee_bps : Int

pub record Disk : Type 0 where
  pub csv : Option Text
  pub tmp : Option Text

module _ (printf : Printf) where
  open printf use {Int, show, atoi}

  -- The row of a token without its newline; `%s` stops at a NUL.
  unfoldable pub row : TokenMeta Int → Text
  row m =
      let active : ℕ = if m.active then 49 else 48 in
      let dated : Text = c_str m.end_date ++ comma ∷ active ∷ comma ∷ show m.taker_fee_bps in
      let asked : Text = c_str (csv_escape_question m.question) ++ comma ∷ dated in
      let outcomes : Text = c_str m.outcome ++ comma ∷ asked in
      let conditions : Text = c_str m.condition_id ++ comma ∷ outcomes in
      c_str m.token_id ++ comma ∷ conditions

  unfoldable pub rows : List (TokenMeta Int) → Text
  rows [] = []
  rows (m ∷ ms) = row m ++ 10 ∷ rows ms

  -- `write_metadata_csv` to the temporary file; one that does not open stays as it is.
  pub write_metadata_csv : Bool → List (TokenMeta Int) → Disk → Disk
  write_metadata_csv opens ms disk =
      if opens then record disk { tmp = some (csv_header ++ rows ms) } else disk

  -- One line, its newlines gone; `none` for each `continue`.
  pub parse_row : Text → Option (TokenMeta Int)
  parse_row line = do
    (token_id, p) ← split_comma line
    (condition_id, p) ← split_comma p
    (outcome, p) ← split_comma p
    (question, p) ← read_question p
    (end_date, p) ← split_comma p
    some (record {
      token_id = token_id;
      condition_id = condition_id;
      outcome = outcome;
      question = question;
      end_date = end_date;
      active = starts_with_one p;
      taker_fee_bps = atoi (after_comma p);
    })

  -- An empty line is skipped, as parsing it finds no comma.
  unfoldable pub parse_rows : List Text → List (TokenMeta Int)
  parse_rows [] = []
  parse_rows (line ∷ rest) = elim (parse_row (strip (c_str line))) [
    | none ↦ parse_rows rest
    | some m ↦ m ∷ parse_rows rest
  ]

  unfoldable pub without_header : List Text → List Text
  without_header [] = []
  without_header (_ ∷ rest) = rest

  pub read_csv_tokens : Option Text → List (TokenMeta Int)
  read_csv_tokens none = []
  read_csv_tokens (some file) = parse_rows (without_header (lines (length file) file))

  pub rename : Bool → Disk → Bool × Disk
  rename succeeds disk = elim disk.tmp [
    | none ↦ (false, disk)
    | some new ↦ if succeeds then (true, record { csv = some new; tmp = none }) else (false, disk)
  ]

  -- `existing[i] = m`.
  unfoldable pub set_at : ℕ → TokenMeta Int → List (TokenMeta Int) → List (TokenMeta Int)
  set_at i m [] = []
  set_at zero m (x ∷ xs) = m ∷ xs
  set_at (suc i) m (x ∷ xs) = x ∷ set_at i m xs

  -- The index of the existing rows, the last of a token winning.
  unfoldable pub index_from : ℕ → List (TokenMeta Int) → List (Text × ℕ) → List (Text × ℕ)
  index_from i [] index = index
  index_from i (m ∷ ms) index = index_from (i + 1) ms (assign text_eq m.token_id i index)

  -- The loop that updates or appends the fresh tokens.
  unfoldable pub upsert :
      List (TokenMeta Int) → List (Text × ℕ) → List (TokenMeta Int) → List (TokenMeta Int)
  upsert [] index existing = existing
  upsert (m ∷ fresh) index existing = elim (find text_eq m.token_id index) [
    | some i ↦ upsert fresh index (set_at i m existing)
    | none ↦ upsert fresh (assign text_eq m.token_id (length existing) index) (existing ++ m ∷ [])
  ]

  unfoldable pub is_fresh : Text → List (TokenMeta Int) → Bool
  is_fresh id [] = false
  is_fresh id (m ∷ ms) = ite (text_eq m.token_id id) true (is_fresh id ms)

  -- Tokens that are no longer listed stay, inactive.
  unfoldable pub mark_delisted : List (TokenMeta Int) → List (TokenMeta Int) → List (TokenMeta Int)
  mark_delisted fresh [] = []
  mark_delisted fresh (m ∷ ms) =
      (if is_fresh m.token_id fresh then m else record m { active = false })
      ∷ mark_delisted fresh ms

  unfoldable pub merged : List (TokenMeta Int) → List (TokenMeta Int) → List (TokenMeta Int)
  merged fresh existing = mark_delisted fresh (upsert fresh (index_from 0 existing []) existing)

  pub merge_and_write_metadata_csv : Bool → Bool → List (TokenMeta Int) → Disk → Disk
  merge_and_write_metadata_csv opens renames fresh disk =
      (rename renames (write_metadata_csv opens (merged fresh (read_csv_tokens disk.csv)) disk)).1

  -- The rows to append, with the tokens known afterwards; a known token is skipped.
  unfoldable pub new_rows : List (TokenMeta Int) → List Text → Text × List Text
  new_rows [] known = ([], known)
  new_rows (m ∷ fresh) known =
      let (more, seen) = new_rows fresh (m.token_id ∷ known) in
      let skipped = new_rows fresh known in
      if is_known m.token_id known then skipped else (row m ++ 10 ∷ more, seen)

  -- In append mode; a file that does not open leaves both arguments.
  unfoldable pub append_new_metadata_csv :
      Bool → List (TokenMeta Int) → Disk × List Text → Disk × List Text
  append_new_metadata_csv opens fresh (disk, known) =
      let file = contents disk.csv in
      let (text, seen) = new_rows fresh known in
      if opens
      then (record disk { csv = some (file ++ header_if_empty file ++ text) }, seen)
      else (disk, known)

  abbrev pub unresolved : Text → TokenMeta Int → Bool
  unresolved cutoff m = is_empty m.end_date || text_leb cutoff m.end_date

  unfoldable pub kept : Text → List (TokenMeta Int) → List (TokenMeta Int)
  kept cutoff [] = []
  kept cutoff (m ∷ ms) = let rest = kept cutoff ms in if unresolved cutoff m then m ∷ rest else rest

  -- The number of rows dropped, and the files; without a row to drop nothing is written.
  pub prune_metadata_csv : Bool → Bool → Text → Disk → ℕ × Disk
  prune_metadata_csv opens renames cutoff disk =
      let all = read_csv_tokens disk.csv in
      let rest = kept cutoff all in
      let dropped : ℕ = length all - length rest in
      let (renamed, after) = rename renames (write_metadata_csv opens rest disk) in
      if dropped == 0 then (0, disk) else if renamed then (dropped, after) else (0, after)
