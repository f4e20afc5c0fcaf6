-- ===== src/Gateway/Subscription/Extend.antt =====
-- Inserting tokens into a message, against building the message of all tokens.
use polymarket_tickscope.Base.{
  ℕ, ◌+◌, ◌-◌, ◌≡◌, refl, sym, ap, ◌∙◌, List, [], ◌∷◌, ◌++◌, append_assoc, append-nil, Bool, true,
  false, not, none, some, arith, lt→ltb, ◌<◌, ◌==◌, length, length-append,
}
use polymarket_tickscope.Base.Text.{Text, codes}
use polymarket_tickscope.Gateway.Subscription.{
  comma, quote, item, id_list, opening, closing, build_subscription_json, rfind, drop, insert_at,
  char_at, extend,
}

-- The last `c` of a text is the one with none behind it.
rfind-append :
    (c : ℕ) (xs ys : Text) → rfind c ys ≡ none → rfind c (xs ++ c ∷ ys) ≡ some (length xs)
unfolding rfind
rfind-append c [] ys h = ground (arith, h)
rfind-append c (x ∷ xs) ys h = rw (rfind-append c xs ys h, rfind) refl

insert_at-append :
    (xs ys piece : Text) → insert_at (length xs) piece (xs ++ ys) ≡ xs ++ (piece ++ ys)
unfolding insert_at drop
insert_at-append [] ys piece = refl
insert_at-append (x ∷ xs) ys piece = ap (◌∷◌ x) (insert_at-append xs ys piece)

char_at-append : (xs : Text) (x : ℕ) (ys : Text) → char_at (length xs) (xs ++ x ∷ ys) ≡ x
unfolding char_at
char_at-append [] x ys = refl
char_at-append (y ∷ xs) x ys = char_at-append xs x ys

-- The last byte of a list of ids, and what stands before it.
record EndsIn (x : ℕ) (text : Text) : Type 0 where
  front : Text
  split : text ≡ front ++ x ∷ []

id_list-EndsIn :
    (leading : Bool) (t : Text) (ts : List Text) → EndsIn quote (id_list leading (t ∷ ts))
unfolding id_list
id_list-EndsIn true t [] = record { front = comma ∷ quote ∷ t; split = append-nil _ }
id_list-EndsIn false t [] = record { front = quote ∷ t; split = append-nil _ }
id_list-EndsIn leading t (u ∷ us) =
    let rest = id_list-EndsIn true u us in
    record {
      front = item leading t ++ rest.front;
      split =
          ap (◌++◌ (item leading t)) rest.split
          ∙ sym (append_assoc (item leading t) rest.front (quote ∷ []));
    }

id_list-append :
    (leading : Bool) (ts us : List Text) (t : Text)
    → id_list leading (t ∷ ts) ++ id_list true us ≡ id_list leading (t ∷ (ts ++ us))
unfolding id_list
id_list-append leading [] us t = rw append-nil refl
id_list-append leading (u ∷ ts) us t =
    append_assoc (item leading t) (id_list true (u ∷ ts)) (id_list true us)
    ∙ ap (◌++◌ (item leading t)) (id_list-append true ts us u)

tail_free : rfind 93 (codes ",\"type\":\"market\"}") ≡ none
unfolding rfind
tail_free = refl

extend-found :
    (full : Text) (pos x : ℕ) (new_tokens : List Text)
    → rfind 93 full ≡ some pos
    → 0 < pos
    → char_at (pos - 1) full ≡ x
    → extend new_tokens full ≡ insert_at pos (id_list (not (x == 91)) new_tokens) full
unfolding extend
extend-found full pos x new_tokens e h k = rw (e, extend, lt→ltb 0 pos h, k) refl

-- Inserting at the end of a text before `closing`.
extend-closing :
    (front : Text) (x : ℕ) (new_tokens : List Text)
    → extend new_tokens ((front ++ x ∷ []) ++ closing)
      ≡ (front ++ x ∷ []) ++ (id_list (not (x == 91)) new_tokens ++ closing)
extend-closing front x new_tokens =
    let whole : Text = front ++ x ∷ [] in
    let n : length whole ≡ length front + 1 = length-append front (x ∷ []) in
    let before : char_at (length whole - 1) (whole ++ closing) ≡ x =
      ap (λ k. char_at k (whole ++ closing)) (omega (arith, n))
      ∙ ap (char_at (length front)) (append_assoc front (x ∷ []) closing)
      ∙ char_at-append front x closing in
    extend-found (whole ++ closing) (length whole) x new_tokens
      (rfind-append 93 whole (codes ",\"type\":\"market\"}") tail_free) (omega (arith, n)) before
    ∙ insert_at-append whole closing (id_list (not (x == 91)) new_tokens)

-- Inserting new tokens into the message of others, empty lists included, gives the message
-- built from both lists.
pub extend-build_subscription_json :
    (tokens new_tokens : List Text)
    → extend new_tokens (build_subscription_json tokens)
      ≡ build_subscription_json (tokens ++ new_tokens)
unfolding build_subscription_json
extend-build_subscription_json [] new_tokens =
    unfold id_list in extend-closing (codes "{\"assets_ids\":") 91 new_tokens
extend-build_subscription_json (t ∷ ts) new_tokens =
    let ids = id_list-EndsIn false t ts in
    let front : Text = opening ++ ids.front in
    let split : opening ++ id_list false (t ∷ ts) ≡ front ++ quote ∷ [] =
      ap (◌++◌ opening) ids.split ∙ sym (append_assoc opening ids.front (quote ∷ [])) in
    ap (extend new_tokens)
      (sym (append_assoc opening (id_list false (t ∷ ts)) closing) ∙ ap (λ k. k ++ closing) split)
    ∙ extend-closing front quote new_tokens
    ∙ ap (λ k. k ++ (id_list true new_tokens ++ closing)) (sym split)
    ∙ append_assoc opening (id_list false (t ∷ ts)) _
    ∙ ap (◌++◌ opening) (
        sym (append_assoc (id_list false (t ∷ ts)) (id_list true new_tokens) closing)
        ∙ ap (λ k. k ++ closing) (id_list-append false ts new_tokens t))
