-- ===== src/Ring/Queue.antt =====
-- The abstract queue that a ring implements: at most `capacity` items, oldest first.
use polymarket_tickscope.Base.{
  ℕ, List, [], ◌∷◌, ◌++◌, Bool, true, false, Option, none, some, ite, if_pos, if_neg, ℕ_discrete,
  length, ◌≡◌, ◌≢◌,
}

-- A full queue drops the item.
unfoldable pub push : {A : Type 0} → ℕ → List A → A → Bool × List A
push capacity q x = ite (ℕ_discrete (length q) capacity) (false, q) (true, q ++ x ∷ [])

pub push_full :
    {A : Type 0} (capacity : ℕ) (q : List A) (x : A)
    → length q ≡ capacity
    → push capacity q x ≡ (false, q)
unfolding push
push_full capacity q x e = if_pos (ℕ_discrete (length q) capacity) e _ _

pub push_room :
    {A : Type 0} (capacity : ℕ) (q : List A) (x : A)
    → length q ≢ capacity
    → push capacity q x ≡ (true, q ++ x ∷ [])
unfolding push
push_room capacity q x e = if_neg (ℕ_discrete (length q) capacity) e _ _

-- What a client does, and what it sees.
pub data Op (A : Type 0) : Type 0 where
  produces : A → Op A
  consumes : Op A

pub data Reply (A : Type 0) : Type 0 where
  produced : Bool → Reply A
  consumed : Option A → Reply A

unfoldable pub run : {A : Type 0} → ℕ → List A → List (Op A) → List (Reply A)
run capacity q [] = []
run capacity q (produces x ∷ ops) =
    let (taken, q') = push capacity q x in produced taken ∷ run capacity q' ops
run capacity [] (consumes ∷ ops) = consumed none ∷ run capacity [] ops
run capacity (x ∷ q) (consumes ∷ ops) = consumed (some x) ∷ run capacity q ops
