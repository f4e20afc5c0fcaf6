-- ===== src/Gateway/Subscription.antt =====
-- src/gateway/WebSocketClient.cpp: the subscription message, and the insertion of new tokens into
-- it. src/bot/main.cpp has the same builder as `build_sub_json`.
pub mod Extend
use polymarket_tickscope.Base.{
  ℕ, zero, suc, ◌-◌, List, [], ◌∷◌, ◌++◌, Bool, true, false, not, ◌&&◌, Option, none, some, ltb,
  ◌==◌, if◌then◌else◌, take,
}
use polymarket_tickscope.Base.Text.{Text, codes}

abbrev pub comma : ℕ
comma = 44

abbrev pub quote : ℕ
quote = 34

-- `"id"`, with a comma before it or not.
abbrev pub item : Bool → Text → Text
item true t = comma ∷ quote ∷ (t ++ quote ∷ [])
item false t = quote ∷ (t ++ quote ∷ [])

-- The loop over the ids; `leading` says whether the first has a comma before it, as all others do.
unfoldable pub id_list : Bool → List Text → Text
id_list leading [] = []
id_list leading (t ∷ ts) = item leading t ++ id_list true ts

abbrev pub opening : Text
opening = codes "{\"assets_ids\":["

abbrev pub closing : Text
closing = codes "],\"type\":\"market\"}"

unfoldable pub build_subscription_json : List Text → Text
build_subscription_json tokens = opening ++ (id_list false tokens ++ closing)

-- `text.rfind(c)`.
unfoldable pub rfind : ℕ → Text → Option ℕ
rfind c [] = none
rfind c (x ∷ xs) = elim (rfind c xs) [
  | none ↦ if x == c then some 0 else none
  | some i ↦ some (suc i)
]

unfoldable pub drop : ℕ → Text → Text
drop zero xs = xs
drop (suc n) [] = []
drop (suc n) (x ∷ xs) = drop n xs

-- `text.insert(pos, piece)`.
unfoldable pub insert_at : ℕ → Text → Text → Text
insert_at pos piece text = take pos text ++ (piece ++ drop pos text)

-- `text[i]`, and 0 past the end.
unfoldable pub char_at : ℕ → Text → ℕ
char_at i [] = 0
char_at zero (x ∷ xs) = x
char_at (suc i) (x ∷ xs) = char_at i xs

-- What `subscribe` makes of the full message: the new ids go before the last `]`.
unfoldable pub extend : List Text → Text → Text
extend new_tokens full = elim (rfind 93 full) [
  | none ↦ full
  | some pos ↦
      let empty_array = ltb 0 pos && char_at (pos - 1) full == 91 in
      insert_at pos (id_list (not empty_array) new_tokens) full
]
