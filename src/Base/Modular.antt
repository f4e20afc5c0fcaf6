-- ===== src/Base/Modular.antt =====
-- Positions that only grow, seen modulo a capacity and modulo the machine word.
use Prim.Native.Nat.{ℕ, ◌+◌, ◌/◌, ◌%◌, ◌^◌, ◌<◌, ◌∣◌}
use mathlib.Core.Path.{◌≡◌, ap, ◌∙◌}
use mathlib.Core.Logic.{◌≢◌}
use native.Mathlib.Nat.{div-add-mod, mul-le-mul_left, mod-mod_of_dvd, mul-suc, mod-eq-sub-mod}
use native.Mathlib.Decide.{dec_lt}
use native.Mathlib.Omega.{arith}

-- `std::size_t` and `uint64_t` arithmetic wraps here.
abbrev pub word_mod : ℕ
word_mod = 2 ^ 64

-- Two positions less than `n` apart differ modulo `n`.
pub mod-ne_of_near : (n p q : ℕ) → p < q → q < p + n → p % n ≢ q % n
mod-ne_of_near n p q h k e = elim (dec_lt (p / n) (q / n)) [
  | yes lt ↦
      omega (arith, div-add-mod p n, div-add-mod q n, mul-le-mul_left n lt, mul-suc n (p / n))
  | no ge ↦ omega (
    arith,
    div-add-mod p n,
    div-add-mod q n,
    mul-le-mul_left {m = q / n} {n = p / n} n (omega arith),
  )
]

-- Wrapping a position at the word keeps its slot, since the capacity divides 2^64.
pub mod-wrap : (n p : ℕ) → n ∣ word_mod → p % word_mod % n ≡ p % n
mod-wrap n p d = mod-mod_of_dvd n p d

-- A lap further on stands the same slot.
pub mod_lap : (n p : ℕ) → (p + n) % n ≡ p % n
mod_lap n p = mod-eq-sub-mod {n = p + n} {m = n} (omega arith) ∙ ap (λ (k : ℕ). k % n) (omega arith)
