-- ===== src/Base/Text.antt =====
-- `std::string` and `char` arrays as lists of bytes.
use Prim.Native.Nat.{ℕ, zero, suc, ◌+◌, ◌/◌, ◌%◌}
use Prim.Native.Char.{code}
use Prim.Native.String.{String}
use mathlib.Core.Logic.{ite}
use mathlib.Core.List.{List, [], ◌∷◌, ◌++◌}
use native.Mathlib.Decide.{ℕ_discrete}
use polymarket_tickscope.Base.Tests.{if◌then◌else◌, ltb}

abbrev pub Text : Type 0
Text = List ℕ

-- The bytes of an ASCII literal.
abbrev pub codes : String → Text
codes String.[] = []
codes (String.◌∷◌ c s) = code c ∷ codes s

-- `==` on strings.
unfoldable pub text_eq : Discrete Text
unfolding ℕ_discrete
text_eq = hlevel ℕ_discrete

-- What a `string_view` made from a `char` pointer covers: the bytes before the first NUL.
unfoldable pub c_str : Text → Text
c_str [] = []
c_str (c ∷ cs) = ite (ℕ_discrete c 0) [] (c ∷ c_str cs)

-- `std::to_string` of a number that is not negative; the fuel is above the number of its digits.
unfoldable pub digits : ℕ → ℕ → Text
digits zero n = (48 + n) ∷ []
digits (suc fuel) n =
    let rest = digits fuel (n / 10) in
    if ltb n 10 then (48 + n) ∷ [] else rest ++ ((48 + n % 10) ∷ [])

pub to_string : ℕ → Text
to_string n = digits n n
