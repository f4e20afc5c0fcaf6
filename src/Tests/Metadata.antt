-- ===== src/Tests/Metadata.antt =====
-- The metadata CSV at a concrete row.
use polymarket_tickscope.Base.{
  ◌≡◌, ◌<◌, refl, [], ◌∷◌, ◌++◌, map, length, true, some, arith, ℕ_discrete,
}
use polymarket_tickscope.Base.Text.{Text, codes, c_str}
use polymarket_tickscope.Gateway.Metadata.{
  Printf, TokenMeta, row, rows, parse_row, csv_escape_question, escape_body, csv_header,
  read_csv_tokens,
}
use polymarket_tickscope.Gateway.Metadata.File.{
  IsUnbroken, unbroken_lem, IsStorable, reread, read_csv_tokens-rows,
}
use polymarket_tickscope.Gateway.Metadata.Csv.{clean, IsWritable, parse_row-row}

-- Numbers that are their own digits.
abbrev digits : Printf
digits = record { Int = Text; show = λ n. n; atoi = λ text. text }

abbrev token : TokenMeta Text
token = record {
  token_id = codes "7";
  condition_id = codes "c";
  outcome = codes "Y";
  question = codes "a,\"";
  end_date = codes "2";
  active = true;
  taker_fee_bps = codes "25";
}

token-IsWritable : IsWritable digits token
token-IsWritable = record {
  token_id = ((refl, ground arith), tt);
  condition_id = ((refl, ground arith), tt);
  outcome = ((refl, ground arith), tt);
  question = (ground arith, (ground arith, (ground arith, tt)));
  end_date = ((refl, ground arith), tt);
  number = refl;
}

parse_row-row_example :
    parse_row digits (row digits token) ≡ some (record token { question = clean token.question })
parse_row-row_example = parse_row-row digits token token-IsWritable

row-IsUnbroken : IsUnbroken (row digits token)
unfolding row csv_escape_question escape_body c_str ℕ_discrete
row-IsUnbroken = unbroken_lem (row digits token) refl

row_short : length (row digits token) < 2047
unfolding row csv_escape_question escape_body c_str ℕ_discrete
row_short = omega arith

token-IsStorable : IsStorable digits token
token-IsStorable = (token-IsWritable, (row_short, row-IsUnbroken))

read_csv_tokens-rows_example :
    read_csv_tokens digits (some (csv_header ++ rows digits (token ∷ token ∷ [])))
    ≡ map (reread digits) (token ∷ token ∷ [])
read_csv_tokens-rows_example =
    read_csv_tokens-rows digits (token ∷ token ∷ []) (token-IsStorable, (token-IsStorable, tt))
