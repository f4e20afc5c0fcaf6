-- ===== src/Gateway/Metadata/Lines.antt =====
-- src/gateway/MarketDiscovery.cpp: the text of the metadata CSV, of a question in it, and of its lines.
use polymarket_tickscope.Base.{
  ℕ, zero, suc, List, [], ◌∷◌, ◌++◌, Bool, true, false, ◌||◌, Option, none, some, ite, ltb, ◌==◌,
  if◌then◌else◌, ◌>>=◌,
}
use polymarket_tickscope.Base.Text.{Text, codes, text_eq}

abbrev pub comma : ℕ
comma = 44

abbrev pub quote : ℕ
quote = 34

abbrev pub is_newline : ℕ → Bool
is_newline c = (c == 10) || (c == 13)

-- The loop of `csv_escape_question`.
unfoldable pub escape_body : Text → Text
escape_body [] = []
escape_body (c ∷ cs) =
    let rest = escape_body cs in
    if is_newline c then 32 ∷ rest else if c == quote then quote ∷ quote ∷ rest else c ∷ rest

unfoldable pub csv_escape_question : Text → Text
csv_escape_question s = quote ∷ escape_body s ++ quote ∷ []

-- Up to the first comma and after it; `none` where strchr finds none.
unfoldable pub split_comma : Text → Option (Text × Text)
split_comma [] = none
split_comma (c ∷ cs) =
    if c == comma then some ([], cs) else do (field, rest) ← split_comma cs; some (c ∷ field, rest)

-- The loop over a quoted field, after its opening quote.
unfoldable pub unquote : Text → Text × Text
unquote [] = ([], [])
unquote (c ∷ []) = if c == quote then ([], []) else (c ∷ [], [])
unquote (c ∷ d ∷ cs) =
    let (doubled, after) = unquote cs in
    let (field, rest) = unquote (d ∷ cs) in
    if c == quote
    then (if d == quote then (quote ∷ doubled, after) else ([], d ∷ cs))
    else (c ∷ field, rest)

unfoldable pub skip_comma : Text → Text
skip_comma [] = []
skip_comma (c ∷ cs) = if c == comma then cs else c ∷ cs

-- Quoted or, from another writer, unquoted.
unfoldable pub read_question : Text → Option (Text × Text)
read_question [] = split_comma []
read_question (c ∷ cs) =
    let (field, rest) = unquote cs in
    if c == quote then some (field, skip_comma rest) else split_comma (c ∷ cs)

unfoldable pub starts_with_one : Text → Bool
starts_with_one [] = false
starts_with_one (c ∷ cs) = c == 49

-- `while (*p && *p != ',') ++p; if (*p == ',') ++p;`
unfoldable pub after_comma : Text → Text
after_comma [] = []
after_comma (c ∷ cs) = let rest = after_comma cs in if c == comma then cs else rest

-- The trailing newlines of a line, cut off.
unfoldable pub strip : Text → Text
strip [] = []
strip (c ∷ cs) = elim (strip cs) [ [] ↦ if is_newline c then [] else c ∷ [] | d ∷ ds ↦ c ∷ d ∷ ds ]

-- What fgets reads into a buffer of n + 1 bytes, and what is left.
unfoldable pub fgets : ℕ → Text → Text × Text
fgets zero cs = ([], cs)
fgets (suc n) [] = ([], [])
fgets (suc n) (c ∷ cs) =
    let (line, rest) = fgets n cs in if c == 10 then (c ∷ [], cs) else (c ∷ line, rest)

-- The lines of a file; a fuel of its length is enough, as each line takes a byte.
unfoldable pub lines : ℕ → Text → List Text
lines zero cs = []
lines (suc fuel) [] = []
lines (suc fuel) (c ∷ cs) = let (line, rest) = fgets 2047 (c ∷ cs) in line ∷ lines fuel rest

unfoldable pub csv_header : Text
csv_header = codes "asset_id,condition_id,outcome,question,end_date,active,taker_fee_bps\n"

-- `known.insert(id)` says whether the id is new; the set is a list.
unfoldable pub is_known : Text → List Text → Bool
is_known id [] = false
is_known id (k ∷ known) = ite (text_eq k id) true (is_known id known)

abbrev pub is_empty : Text → Bool
is_empty [] = true
is_empty (_ ∷ _) = false

-- `<=` on strings, byte by byte.
unfoldable pub text_leb : Text → Text → Bool
text_leb [] cs = true
text_leb (c ∷ cs) [] = false
text_leb (c ∷ cs) (d ∷ ds) =
    let rest = text_leb cs ds in if ltb c d then true else if ltb d c then false else rest

abbrev pub contents : Option Text → Text
contents none = []
contents (some file) = file

abbrev pub header_if_empty : Text → Text
header_if_empty [] = csv_header
header_if_empty (_ ∷ _) = []
