-- ===== src/Base/Text.antt =====
-- What an f-string does with its parts: texts put together, and numbers in decimal.
use Prim.Native.Nat.{ℕ, zero, suc, ◌/◌, ◌%◌}
use Prim.Native.String.{String}
use mathlib.Core.Bool.{true, false}
use mathlib.Core.List.{List, [], ◌∷◌}
use Prim.Native.String.{◌++◌}
use havoc_forge.Base.Tests.{ltb}
use havoc_forge.Base.Lists.{get_or}

-- The parts one after the other.
unfoldable pub concat : List String → String
concat [] = ""
concat (s ∷ l) = s ++ concat l

-- `sep.join(parts)`
unfoldable pub join : String → List String → String
join sep [] = ""
join sep (s ∷ []) = s
join sep (s ∷ t ∷ l) = s ++ sep ++ join sep (t ∷ l)

abbrev decimals : List String
decimals = "0" ∷ "1" ∷ "2" ∷ "3" ∷ "4" ∷ "5" ∷ "6" ∷ "7" ∷ "8" ∷ "9" ∷ []

show_digits : ℕ → ℕ → String → String
show_digits zero n rest = rest
show_digits (suc fuel) n rest =
    let here = get_or decimals (n % 10) "" ++ rest in
    elim (ltb n 10) [ true ↦ here | false ↦ show_digits fuel (n / 10) here ]

-- A number has at most as many digits as its successor counts, which is the fuel.
unfoldable pub show_ℕ : ℕ → String
unfolding show_digits
show_ℕ n = show_digits (suc n) n ""
