-- ===== src/Base/Dict/Values.antt =====
-- A property of all values of a map.
use mathlib.Core.Path.{◌≡◌, subst}
use mathlib.Core.Logic.{ite}
use mathlib.Core.List.{List, [], ◌∷◌}
use mathlib.Core.Option.{some}
use native.Mathlib.Omega.{arith}
use polymarket_tickscope.Base.Dict.{find, assign, erase}

module _ {ℓ} {K V : Type ℓ} (P : V → Type ℓ) where
  abbrev pub Values : List (K × V) → Type ℓ
  Values [] = Unit
  Values ((k, v) ∷ m) = P v × Values m

  module _ (d : Discrete K) where
    pub find-Values : (k : K) (v : V) (m : List (K × V)) → find d k m ≡ some v → Values m → P v
    unfolding find
    find-Values k v [] e h = absurd (cc e)
    find-Values k v ((j, w) ∷ m) e h = elim (d j k) [
      | yes p ↦ subst P (ground (arith, e)) h.0
      | no p ↦ find-Values k v m (ground (arith, e)) h.1
    ]

    pub assign-Values :
        (k : K) (v : V) (m : List (K × V)) → P v → Values m → Values (assign d k v m)
    unfolding assign
    assign-Values k v [] p h = (p, tt)
    assign-Values k v ((j, w) ∷ m) p h =
        elim (d j k) as (λ s. Values (ite s ((j, v) ∷ m) ((j, w) ∷ assign d k v m))) [
          | yes _ ↦ (p, h.1)
          | no _ ↦ (h.0, assign-Values k v m p h.1)
        ]

    pub erase-Values : (k : K) (m : List (K × V)) → Values m → Values (erase d k m)
    unfolding erase
    erase-Values k [] h = tt
    erase-Values k ((j, w) ∷ m) h = elim (d j k) as (λ s. Values (ite s m ((j, w) ∷ erase d k m))) [
      | yes _ ↦ h.1
      | no _ ↦ (h.0, erase-Values k m h.1)
    ]
