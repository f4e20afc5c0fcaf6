-- ===== src/Base/Double.antt =====
-- `double` is not modelled: the type and its operations are a parameter of what computes with it.
pub mod Exact
pub mod Ordered
use polymarket_tickscope.Base.Tests.{if◌then◌else◌}
use Prim.Native.Nat.{ℕ}
use mathlib.Core.Bool.{Bool}

-- Carrier, constants and operations. A literal is `decimal m k`, for m * 10^-k.
pub record Double : Type 1 where
  pub F : Type 0
  pub decimal : ℕ → ℕ → F
  pub add : F → F → F
  pub sub : F → F → F
  pub mul : F → F → F
  pub div : F → F → F
  pub round : F → F
  pub lt : F → F → Bool
  pub le : F → F → Bool

module _ (num : Double) where
  open num use {F, lt}

  -- `std::clamp` and `std::max`.
  unfoldable pub clamp : F → F → F → F
  clamp v lo hi = if lt v lo then lo else if lt hi v then hi else v

  unfoldable pub max : F → F → F
  max a b = if lt a b then b else a
