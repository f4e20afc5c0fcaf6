-- ===== src/Gateway/Metadata/Known.antt =====
-- Sets of token ids, which the code keeps in an `unordered_set`.
use polymarket_tickscope.Base.{◌≡◌, List, [], ◌∷◌, ◌++◌, true, arith}
use polymarket_tickscope.Base.Text.{Text}
use polymarket_tickscope.Gateway.Metadata.{is_known}

pub is_known-cons :
    (t k : Text) (known : List Text) → is_known t known ≡ true → is_known t (k ∷ known) ≡ true
unfolding is_known
is_known-cons t k known h = ground arith

pub is_known_self : (t : Text) (known : List Text) → is_known t (t ∷ known) ≡ true
unfolding is_known
is_known_self t known = ground arith

pub is_known-append_left :
    (t : Text) (xs ys : List Text) → is_known t xs ≡ true → is_known t (xs ++ ys) ≡ true
unfolding is_known
is_known-append_left t [] ys h = absurd (cc h)
is_known-append_left t (x ∷ xs) ys h = ground (arith, is_known-append_left t xs ys)

pub is_known-append_right :
    (t : Text) (xs ys : List Text) → is_known t ys ≡ true → is_known t (xs ++ ys) ≡ true
is_known-append_right t [] ys h = h
is_known-append_right t (x ∷ xs) ys h =
    is_known-cons t x (xs ++ ys) (is_known-append_right t xs ys h)
