-- ===== src/Base/Dict.antt =====
-- `std::unordered_map` as an association list: a new key goes to the end, an old one is
-- overwritten where it stands. The order of the list stands for the map's iteration order.
pub mod Values
use mathlib.Core.Path.{◌≡◌, refl}
use mathlib.Core.Logic.{ite, ◌≢◌}
use mathlib.Core.Bool.{Bool, true, false}
use mathlib.Core.List.{List, [], ◌∷◌}
use mathlib.Core.Option.{Option, none, some}
use native.Mathlib.Omega.{arith}

module _ {ℓ} {K V : Type ℓ} (d : Discrete K) where
  -- `m.find(k)`, with `none` for `m.end()`.
  unfoldable pub find : K → List (K × V) → Option V
  find k [] = none
  find k ((j, v) ∷ m) = ite (d j k) (some v) (find k m)

  -- `m[k] = v`.
  unfoldable pub assign : K → V → List (K × V) → List (K × V)
  assign k v [] = (k, v) ∷ []
  assign k v ((j, w) ∷ m) = ite (d j k) ((j, v) ∷ m) ((j, w) ∷ assign k v m)

  -- `m.erase(it)` for the entry `it` of the key.
  unfoldable pub erase : K → List (K × V) → List (K × V)
  erase k [] = []
  erase k ((j, w) ∷ m) = ite (d j k) m ((j, w) ∷ erase k m)

  -- `m.count(k) > 0`.
  unfoldable pub contains : K → List (K × V) → Bool
  contains k m = elim (find k m) [ none ↦ false | some _ ↦ true ]

  -- No key stands twice, as in every `unordered_map`.
  abbrev pub Unique : List (K × V) → Type ℓ
  Unique [] = Unit
  Unique ((j, w) ∷ m) = (find j m ≡ none) × Unique m

  pub find-assign :
      (k j : K) (v : V) (m : List (K × V)) → find j (assign k v m) ≡ ite (d k j) (some v) (find j m)
  unfolding find assign
  find-assign k j v [] = refl
  find-assign k j v ((i, w) ∷ m) = ground (arith, find-assign k j v m)

  pub find-assign_self : (k : K) (v : V) (m : List (K × V)) → find k (assign k v m) ≡ some v
  find-assign_self k v m = ground (arith, find-assign k k v m)

  pub find-assign_ne :
      (k j : K) (v : V) (m : List (K × V)) → k ≢ j → find j (assign k v m) ≡ find j m
  find-assign_ne k j v m h = ground (arith, find-assign k j v m)

  pub find-erase_ne : (k j : K) (m : List (K × V)) → k ≢ j → find j (erase k m) ≡ find j m
  unfolding find erase
  find-erase_ne k j [] h = refl
  find-erase_ne k j ((i, w) ∷ m) h = ground (arith, find-erase_ne k j m h)

  pub find-erase_self : (k : K) (m : List (K × V)) → Unique m → find k (erase k m) ≡ none
  unfolding find erase
  find-erase_self k [] u = refl
  find-erase_self k ((i, w) ∷ m) u = ground (arith, find-erase_self k m u.1)

  find-erase-none : (k j : K) (m : List (K × V)) → find j m ≡ none → find j (erase k m) ≡ none
  unfolding find erase
  find-erase-none k j [] h = refl
  find-erase-none k j ((i, w) ∷ m) h = ground (arith, find-erase-none k j m)

  pub assign-Unique : (k : K) (v : V) (m : List (K × V)) → Unique m → Unique (assign k v m)
  unfolding find assign
  assign-Unique k v [] u = (refl, tt)
  assign-Unique k v ((i, w) ∷ m) u = ground (arith, assign-Unique k v m u.1, find-assign_ne k i v m)

  pub erase-Unique : (k : K) (m : List (K × V)) → Unique m → Unique (erase k m)
  unfolding find erase
  erase-Unique k [] u = tt
  erase-Unique k ((i, w) ∷ m) u = ground (arith, erase-Unique k m u.1, find-erase-none k i m)

  pub contains-find : (k : K) (m : List (K × V)) → (contains k m ≡ false) → find k m ≡ none
  unfolding contains
  contains-find k m h = ground arith
