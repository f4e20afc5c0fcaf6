-- ===== src/Ring/Threads/Log.antt =====
-- The log of claimed items, by position.
use polymarket_tickscope.Base.{
  ℕ, zero, suc, ◌<◌, ◌≤◌, ◌≡◌, refl, ap, List, [], ◌∷◌, ◌++◌, take, length, Option, none, some,
  arith,
}

module _ {A : Type 0} where
  -- The item at a position of the list.
  unfoldable pub item_at : ℕ → List A → Option A
  item_at p [] = none
  item_at zero (x ∷ xs) = some x
  item_at (suc p) (x ∷ xs) = item_at p xs

  pub item_at-old :
      (p : ℕ) (xs : List A) (y : A) {x : A}
      → item_at p xs ≡ some x
      → item_at p (xs ++ y ∷ []) ≡ some x
  unfolding item_at
  item_at-old p [] y h = absurd (cc h)
  item_at-old zero (z ∷ xs) y h = h
  item_at-old (suc p) (z ∷ xs) y h = item_at-old p xs y h

  pub item_at-new : (xs : List A) (y : A) → item_at (length xs) (xs ++ y ∷ []) ≡ some y
  unfolding item_at
  item_at-new [] y = refl
  item_at-new (x ∷ xs) y = item_at-new xs y

  pub item_at-bound : (p : ℕ) (xs : List A) {x : A} → item_at p xs ≡ some x → p < length xs
  unfolding item_at
  item_at-bound p [] h = absurd (cc h)
  item_at-bound zero (z ∷ xs) h = omega arith
  item_at-bound (suc p) (z ∷ xs) h = omega (arith, item_at-bound p xs h)

  pub take_old : (n : ℕ) (xs : List A) (y : A) → n ≤ length xs → take n (xs ++ y ∷ []) ≡ take n xs
  take_old zero xs y h = refl
  take_old (suc n) [] y h = absurd (omega arith)
  take_old (suc n) (x ∷ xs) y h = ap (◌∷◌ x) (take_old n xs y (omega arith))

  pub take_next :
      (n : ℕ) (xs : List A) {x : A} → item_at n xs ≡ some x → take (suc n) xs ≡ take n xs ++ x ∷ []
  unfolding item_at
  take_next n [] h = absurd (cc h)
  take_next zero (y ∷ xs) h = ground arith
  take_next (suc n) (y ∷ xs) h = ap (◌∷◌ y) (take_next n xs h)
